-- ===== src/Provider/Serve/Auth.antt =====
-- Requests that a handler of src/provider.c turns away before it looks at the collectors.
use soma_c.Prelude.{
  ◌≡◌, ◌≢◌, String, eq_iff, false, Option, none, some, List, [], ◌∷◌, ◌++◌, append_assoc, arith,
}
use soma_c.Common.{ReturnCode, err_invalid_token, err_from_mercury}
use soma_c.Foreign.UtHash.{UtHash}
use soma_c.Provider.State.{Provider}
use soma_c.Provider.Server.{
  Server, Response, create_out, close_out, list_out, sum_out, HandleCall, respond, free_input,
  destroy,
}
use soma_c.Provider.Collectors.{check_token}
use soma_c.Provider.Handlers.{
  finish, make_collector, close_body, destroy_body, list_body, hello_body, sum_body,
  create_collector_ult, open_collector_ult, close_collector_ult, destroy_collector_ult,
  list_collectors_ult, hello_ult, sum_ult,
}
use soma_c.Provider.Serve.{
  Request, create_collector, open_collector, close_collector, destroy_collector, list_collectors,
  hello, sum, handle,
}

-- The token that an administrative request carries, when its input could be deserialized.
abbrev pub sent_token : Request → Option (Option String)
sent_token (create_collector supply rpc) = elim rpc.input [ none ↦ none | some i ↦ some i.token ]
sent_token (open_collector supply rpc) = elim rpc.input [ none ↦ none | some i ↦ some i.token ]
sent_token (close_collector rpc) = elim rpc.input [ none ↦ none | some i ↦ some i.token ]
sent_token (destroy_collector rpc) = elim rpc.input [ none ↦ none | some i ↦ some i.token ]
sent_token (list_collectors calloc_ok rpc) = elim rpc.input [ none ↦ none | some i ↦ some i.token ]
sent_token (hello input) = none
sent_token (sum rpc) = none

-- The calls on the handle that answer with `out`.
abbrev pub answer : Response → List HandleCall
answer out = respond out ∷ free_input ∷ destroy ∷ []

-- The calls that answer with an error code alone: the rest of `out` is what it was.
abbrev pub refusal : ReturnCode → Request → List HandleCall
refusal code (create_collector supply rpc) = answer (create_out (record rpc.out { ret = code }))
refusal code (open_collector supply rpc) = answer (create_out (record rpc.out { ret = code }))
refusal code (close_collector rpc) = answer (close_out (record { ret = code }))
refusal code (destroy_collector rpc) = answer (close_out (record { ret = code }))
refusal code (list_collectors calloc_ok rpc) =
    answer (list_out (record rpc.out { ret = code; ids = none }))
refusal code (hello input) = destroy ∷ []
refusal code (sum rpc) = answer (sum_out (record rpc.out { ret = code }))

-- The input of the request could not be deserialized.
abbrev pub IsUndecoded : Request → Type 0
IsUndecoded (create_collector supply rpc) = rpc.input ≡ none
IsUndecoded (open_collector supply rpc) = rpc.input ≡ none
IsUndecoded (close_collector rpc) = rpc.input ≡ none
IsUndecoded (destroy_collector rpc) = rpc.input ≡ none
IsUndecoded (list_collectors calloc_ok rpc) = rpc.input ≡ none
IsUndecoded (hello input) = input ≡ none
IsUndecoded (sum rpc) = rpc.input ≡ none

module _ {W T : Type 0} where
  abbrev pub called : Server W T → List HandleCall → Server W T
  called s cs = record s { calls = s.calls ++ cs }

  pub finish-answer :
      (s : Server W T) (out : Response) → finish out s ≡ some (tt, called s (answer out))
  finish-answer s out = ground (
    arith,
    append_assoc (s.calls ++ respond out ∷ []) (free_input ∷ []) (destroy ∷ []),
    append_assoc s.calls (respond out ∷ []) (free_input ∷ destroy ∷ []),
  )

  pub check_token-false :
      (p : Provider W T) (secret token : String)
      → p.token ≡ some secret
      → token ≢ secret
      → check_token p (some token) ≡ some false
  unfolding check_token
  check_token-false p secret token e ne = ground (arith, eq_iff token secret)

module _ {W T : Type 0} ⦃h : UtHash W T⦄ where
  -- An administrative request with another token than the provider's (none of them NULL) is answered with
  -- SOMA_ERR_INVALID_TOKEN; the provider and the world of the backends stay as they were.
  pub handle-wrong_token :
      (s : Server W T) (r : Request) (secret token : String)
      → s.provider.token ≡ some secret
      → sent_token r ≡ some (some token)
      → token ≢ secret
      → handle r s ≡ some (tt, called s (refusal err_invalid_token r))
  unfolding handle create_collector_ult open_collector_ult close_collector_ult destroy_collector_ult
      list_collectors_ult hello_ult sum_ult make_collector close_body destroy_body list_body
      hello_body sum_body check_token
  handle-wrong_token s (create_collector supply rpc) secret token e st ne = ground (
    arith,
    eq_iff token secret,
    finish-answer s (create_out (record rpc.out { ret = err_invalid_token })),
  )
  handle-wrong_token s (open_collector supply rpc) secret token e st ne = ground (
    arith,
    eq_iff token secret,
    finish-answer s (create_out (record rpc.out { ret = err_invalid_token })),
  )
  handle-wrong_token s (close_collector rpc) secret token e st ne =
      ground (
        arith,
        eq_iff token secret,
        finish-answer s (close_out (record { ret = err_invalid_token })),
      )
  handle-wrong_token s (destroy_collector rpc) secret token e st ne =
      ground (
        arith,
        eq_iff token secret,
        finish-answer s (close_out (record { ret = err_invalid_token })),
      )
  handle-wrong_token s (list_collectors calloc_ok rpc) secret token e st ne = ground (
    arith,
    eq_iff token secret,
    finish-answer s (list_out (record rpc.out { ret = err_invalid_token; ids = none })),
  )
  handle-wrong_token s (hello input) secret token e st ne = cc
  handle-wrong_token s (sum rpc) secret token e st ne = cc

  -- A request that cannot be deserialized is answered with SOMA_ERR_FROM_MERCURY (hello is not
  -- answered); the provider and the world of the backends stay as they were.
  pub handle-IsUndecoded :
      (s : Server W T) (r : Request)
      → IsUndecoded r
      → handle r s ≡ some (tt, called s (refusal err_from_mercury r))
  unfolding handle create_collector_ult open_collector_ult close_collector_ult destroy_collector_ult
      list_collectors_ult hello_ult sum_ult make_collector close_body destroy_body list_body
      hello_body sum_body check_token
  handle-IsUndecoded s (create_collector supply rpc) e =
      ground (arith, finish-answer s (create_out (record rpc.out { ret = err_from_mercury })))
  handle-IsUndecoded s (open_collector supply rpc) e =
      ground (arith, finish-answer s (create_out (record rpc.out { ret = err_from_mercury })))
  handle-IsUndecoded s (close_collector rpc) e =
      ground (arith, finish-answer s (close_out (record { ret = err_from_mercury })))
  handle-IsUndecoded s (destroy_collector rpc) e =
      ground (arith, finish-answer s (close_out (record { ret = err_from_mercury })))
  handle-IsUndecoded s (list_collectors calloc_ok rpc) e =
      ground
        (arith, finish-answer s (list_out (record rpc.out { ret = err_from_mercury; ids = none })))
  handle-IsUndecoded s (hello input) e = ground arith
  handle-IsUndecoded s (sum rpc) e =
      ground (arith, finish-answer s (sum_out (record rpc.out { ret = err_from_mercury })))
