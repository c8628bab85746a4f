-- ===== src/Provider/Serve/NullString.antt =====
-- Requests to src/provider.c that leave out a string which a handler compares.
use soma_c.Prelude.{ℕ, suc, ◌≡◌, ◌⊎◌, String, true, Option, none, some, List, ◌∷◌, arith, inl, inr}
use soma_c.Backend.{BackendImpl}
use soma_c.Foreign.UtHash.{UtHash}
use soma_c.Provider.Server.{Server}
use soma_c.Provider.Backends.{find_backend_impl}
use soma_c.Provider.Backends.Lookup.{find_backend_impl-null}
use soma_c.Provider.Collectors.{check_token}
use soma_c.Provider.Handlers.{
  make_collector, close_body, destroy_body, list_body, create_collector_ult, open_collector_ult,
  close_collector_ult, destroy_collector_ult, list_collectors_ult,
}
use soma_c.Provider.Serve.{
  Request, create_collector, open_collector, close_collector, destroy_collector, list_collectors,
  hello, sum, handle,
}
use soma_c.Provider.Serve.Auth.{sent_token}

-- The token and the type of a request that makes a collector, when its input could be deserialized.
abbrev pub sent_type : Request → Option (Option String × Option String)
sent_type (create_collector supply rpc) = elim rpc.input [
  | none ↦ none
  | some i ↦ some (i.token, i.type)
]
sent_type (open_collector supply rpc) = elim rpc.input [
  | none ↦ none
  | some i ↦ some (i.token, i.type)
]
sent_type _ = none

module _ {W T : Type 0} where
  -- The provider has a token, and the request has none.
  abbrev pub LacksToken : Server W T → Request → Type 0
  LacksToken s r =
      ((secret : String) × (s.provider.token ≡ some secret)) × (sent_token r ≡ some none)

  -- The provider has a backend and accepts the token, and the request has no type.
  abbrev pub LacksType : Server W T → Request → Type 0
  LacksType s r =
      ((token : Option String) × (sent_type r ≡ some (token, none))
        × (check_token s.provider token ≡ some true))
      × ((b : BackendImpl W) × (bs : List (BackendImpl W)) × (s.provider.backend_types ≡ b ∷ bs))
      × ((n : ℕ) × (s.provider.num_backend_types ≡ suc n))

module _ {W T : Type 0} ⦃h : UtHash W T⦄ where
  handle-null_token :
      (s : Server W T) (r : Request) (secret : String)
      → s.provider.token ≡ some secret
      → sent_token r ≡ some none
      → handle r s ≡ none
  unfolding handle create_collector_ult open_collector_ult close_collector_ult destroy_collector_ult
      list_collectors_ult make_collector close_body destroy_body list_body check_token
  handle-null_token s (create_collector supply rpc) secret e st = ground arith
  handle-null_token s (open_collector supply rpc) secret e st = ground arith
  handle-null_token s (close_collector rpc) secret e st = ground arith
  handle-null_token s (destroy_collector rpc) secret e st = ground arith
  handle-null_token s (list_collectors calloc_ok rpc) secret e st = ground arith
  handle-null_token s (hello input) secret e st = cc
  handle-null_token s (sum rpc) secret e st = cc

  handle-null_type :
      (s : Server W T) (r : Request) (token : Option String)
      → sent_type r ≡ some (token, none)
      → check_token s.provider token ≡ some true
      → find_backend_impl s.provider none ≡ none
      → handle r s ≡ none
  unfolding handle create_collector_ult open_collector_ult make_collector
  handle-null_type s (create_collector supply rpc) token st ok none_found = ground arith
  handle-null_type s (open_collector supply rpc) token st ok none_found = ground arith
  handle-null_type s (close_collector rpc) token st ok none_found = cc
  handle-null_type s (destroy_collector rpc) token st ok none_found = cc
  handle-null_type s (list_collectors calloc_ok rpc) token st ok none_found = cc
  handle-null_type s (hello input) token st ok none_found = cc
  handle-null_type s (sum rpc) token st ok none_found = cc

  -- A request without a token to a provider with one, and a request for a collector without a type to
  -- a provider that has a backend and accepts the token, run into undefined behaviour: strcmp is given
  -- NULL.
  pub handle-null :
      (s : Server W T) (r : Request) → LacksToken s r ⊎ LacksType s r → handle r s ≡ none
  handle-null s r (inl ((secret, e), st)) = handle-null_token s r secret e st
  handle-null s r (inr ((token, st, ok), (b, bs, e), (n, f))) =
      handle-null_type s r token st ok (find_backend_impl-null s.provider b bs n e f)
