-- ===== src/Stub.antt =====
-- What the remote calls of src/admin.c and src/client.c do with their Mercury handle.
use soma_c.Prelude.{ℕ, Bool, true, false, Option, none, some, List, [], ◌∷◌, if◌then◌else◌}
use soma_c.Common.{ReturnCode, err_from_mercury, Ptr}
use soma_c.Types.Layouts.{MessageType, Message, Signature}

-- What margo_create, margo_provider_forward and margo_get_output give in one call; `output` is the
-- deserialized output, or `none` when margo_get_output fails.
pub record Exchange (Out : Type 0) : Type 0 where
  pub create_ok : Bool
  pub forward_ok : Bool
  pub output : Option Out

-- What margo_create is given: the instance, the address, and the id of the RPC.
pub record Target : Type 0 where
  pub mid : Ptr
  pub address : Ptr
  pub rpc_id : ℕ

-- What the caller of an RPC gets back; `void` has nothing.
abbrev pub Answer : Option MessageType → Type 0
Answer none = Unit
Answer (some t) = Message t

-- The other end of remote calls, with its state: what becomes of a handle for a target, through which
-- an input is forwarded to a provider id. The types are those of the caller's `in` and `out`.
pub record Remote (S : Type 0) : Type 0 where
  pub ask :
      (g : Signature) → Target → (provider_id : ℕ) → Message g.0 → S → Exchange (Answer g.1) × S

-- The calls on the handle, the failed ones but margo_create's included: what margo_create was given,
-- and the provider id and the input of margo_provider_forward; got_output says whether it succeeded.
pub data StubCall (In : Type 0) : Type 0 where
  created : Target → StubCall In
  forwarded : (provider_id : ℕ) → In → StubCall In
  got_output : Bool → StubCall In
  freed_output : StubCall In
  destroyed : StubCall In

-- What a remote call returns, what it writes through its out pointer, if it does, and its calls.
pub record Outcome (In R : Type 0) : Type 0 where
  pub ret : ReturnCode
  pub written : Option R
  pub calls : List (StubCall In)

module _ {In Out R : Type 0} where
  -- The common text of the administrative calls: `read` is what they take from the output.
  unfoldable pub remote_call :
      Exchange Out → Target → ℕ → In → (Out → ReturnCode × Option R) → Outcome In R
  remote_call x target provider_id input read =
      let start = λ (cs : List (StubCall In)). created target ∷ forwarded provider_id input ∷ cs in
      if x.create_ok
      then (if x.forward_ok
          then elim x.output [
            | none ↦ record {
              ret = err_from_mercury;
              written = none;
              calls = start (got_output false ∷ destroyed ∷ []);
            }
            | some out ↦ record {
              ret = (read out).0;
              written = (read out).1;
              calls = start (got_output true ∷ freed_output ∷ destroyed ∷ []);
            }
          ]
          else record { ret = err_from_mercury; written = none; calls = start (destroyed ∷ []) })
      else record { ret = err_from_mercury; written = none; calls = [] }

-- The state of a handle: not there, there, there with an output that wants to be freed; or a call
-- was made that its state does not allow.
pub data HandleState : Type 0 where
  absent : HandleState
  present : HandleState
  holding : HandleState
  misused : HandleState

abbrev pub is_misused : HandleState → Bool
is_misused misused = true
is_misused _ = false

abbrev pub move : {In : Type 0} → HandleState → StubCall In → HandleState
move absent (created target) = present
move present (forwarded provider_id i) = present
move present (got_output true) = holding
move present (got_output false) = present
move holding freed_output = present
move present destroyed = absent
move _ _ = misused

abbrev pub moves : {In : Type 0} → HandleState → List (StubCall In) → HandleState
moves h [] = h
moves h (c ∷ cs) = moves (move h c) cs
