-- ===== src/EndToEnd/Link.antt =====
-- A provider at the other end of the remote calls of src/admin.c and src/client.c: messages are
-- serialized, and Margo starts the handler that the target and the provider id select.
use soma_c.Prelude.{
  ℕ, ◌≡◌, refl, String, Bool, true, false, ◌&&◌, ◌==◌, ==_refl, Option, none, some, List, [], ◌∷◌,
  if◌then◌else◌,
}
use soma_c.Common.{Ptr}
use soma_c.Types.{CreateCollectorOut, CloseCollectorOut, ListCollectorsOut, SumOut}
use soma_c.Types.Layouts.{
  MessageType, Message, create_collector_in_t, create_collector_out_t, open_collector_in_t,
  open_collector_out_t, close_collector_in_t, close_collector_out_t, destroy_collector_in_t,
  destroy_collector_out_t, list_collectors_in_t, list_collectors_out_t, hello_in_t, sum_in_t,
  sum_out_t,
}
use soma_c.Types.Transmit.{transmit}
use soma_c.Foreign.Mercury.{Mercury}
use soma_c.Foreign.UtHash.{UtHash}
use soma_c.Provider.Server.{Server, HandleCall, respond, create_out, close_out, list_out, sum_out}
use soma_c.Provider.Handlers.{Supply}
use soma_c.Provider.Serve.{Request, handle}
use soma_c.Foreign.JsonC.{JsonC}
use soma_c.Dummy.{Heap}
use soma_c.Dummy.Registry.{IsOwned}
use soma_c.Dummy.Concurrent.{same_calls-IsOwned}
use soma_c.EndToEnd.Signatures.{rpc_name}
use soma_c.Stub.{Exchange, Target, Answer, Remote}

-- What decides how the provider answers: which addresses are its own, the id that Margo gives the name
-- of an RPC on the caller's instance, what a new collector gets, what the outputs hold at first, what
-- the structures hold that messages are read into, whether the handler of soma_list_collectors gets
-- memory, and whether the caller gets it for so many ids.
pub record Link : Type 0 where
  pub is_address : Ptr → Bool
  pub id_of : (mid : Ptr) → String → ℕ
  pub supply : Supply
  pub create_junk : CreateCollectorOut
  pub close_junk : CloseCollectorOut
  pub list_junk : ListCollectorsOut
  pub sum_junk : SumOut
  pub junk : (t : MessageType) → Message t
  pub calloc_ok : Bool
  pub grants : ℕ → Bool

-- The request of the RPC that has a type for its input.
abbrev pub request_of : Link → (t : MessageType) → Option (Message t) → Option Request
request_of link create_collector_in_t m =
    some (Request.create_collector link.supply (record { input = m; out = link.create_junk }))
request_of link open_collector_in_t m =
    some (Request.open_collector link.supply (record { input = m; out = link.create_junk }))
request_of link close_collector_in_t m =
    some (Request.close_collector (record { input = m; out = link.close_junk }))
request_of link destroy_collector_in_t m =
    some (Request.destroy_collector (record { input = m; out = link.close_junk }))
request_of link list_collectors_in_t m =
    some (Request.list_collectors link.calloc_ok (record { input = m; out = link.list_junk }))
request_of link hello_in_t m = some (Request.hello m)
request_of link sum_in_t m = some (Request.sum (record { input = m; out = link.sum_junk }))
request_of link _ m = none

-- The output that a handler responded with, if it is of the caller's type.
abbrev pub output_of : (t : MessageType) → List HandleCall → Option (Message t)
output_of create_collector_out_t (respond (create_out o) ∷ cs) = some o
output_of open_collector_out_t (respond (create_out o) ∷ cs) = some o
output_of close_collector_out_t (respond (close_out o) ∷ cs) = some o
output_of destroy_collector_out_t (respond (close_out o) ∷ cs) = some o
output_of list_collectors_out_t (respond (list_out o) ∷ cs) = some o
output_of sum_out_t (respond (sum_out o) ∷ cs) = some o
output_of t cs = none

-- No answer: margo_provider_forward fails.
abbrev pub lost : {Out : Type 0} → Exchange Out
lost = record { create_ok = true; forward_ok = false; output = none }

-- An exchange in which the provider's answer comes back.
abbrev pub delivered : {Out : Type 0} → Option Out → Exchange Out
delivered out = record { create_ok = true; forward_ok = true; output = out }

module _ (W : Type 0) ⦃m : Mercury W⦄ where
  -- The input or output of a call, serialized at one end and read at the other.
  abbrev pub sent : Link → (t : MessageType) → Message t → Option (Message t)
  sent link t d = transmit W link.grants t d (link.junk t)

  abbrev pub sent_back : Link → (t : MessageType) → Option (Message t) → Exchange (Message t)
  sent_back link t none = delivered none
  sent_back link t (some o) = delivered (sent link t o)

  abbrev pub answered : Link → (t : Option MessageType) → List HandleCall → Exchange (Answer t)
  answered link none cs = delivered (some tt)
  answered link (some t) cs = sent_back link t (output_of t cs)

module _ {S T : Type 0} ⦃h : UtHash S T⦄ where
  -- The server as a new handler sees it, with a new RPC handle.
  abbrev pub fresh : Server S T → Server S T
  fresh s = record s { calls = [] }

  -- No answer comes back from one that faults, nor from where no
  -- handler is.
  abbrev pub exchange :
      {Out : Type 0}
      → Option Request
      → (here : Request → Bool) → (List HandleCall → Exchange Out)
      → Server S T
      → Exchange Out × Server S T
  exchange none here answer s = (lost, s)
  exchange (some r) here answer s =
      if here r
      then elim (handle r (fresh s)) [ none ↦ (lost, s) | some (_, t) ↦ (answer t.calls, t) ]
      else (lost, s)

  -- A request reaches the provider if it is sent to its address, to its provider id, and with the id of
  -- its RPC.
  abbrev pub reaches : Link → Target → ℕ → Server S T → Request → Bool
  reaches link target provider_id s r =
      link.is_address target.address
      && ((provider_id == s.provider.provider_id)
          && (target.rpc_id == link.id_of target.mid (rpc_name r)))

  abbrev pub linked : (W : Type 0) ⦃m : Mercury W⦄ → Link → Remote (Server S T)
  linked W link = record {
    ask = λ g target provider_id input s.
        exchange (request_of link g.0 (sent W link g.0 input)) (reaches link target provider_id s)
          (answered W link g.1) s;
  }

  -- A target of the provider for the RPC with a name.
  pub record IsTarget (link : Link) (target : Target) (pid : ℕ) (name : String) (s : Server S T)
      : Type 0 where
    pub address : link.is_address target.address ≡ true
    pub provider_id : pid ≡ s.provider.provider_id
    pub rpc_id : target.rpc_id ≡ link.id_of target.mid name

  pub exchange-some :
      {Out : Type 0} (link : Link) (target : Target) (pid : ℕ) (r : Request)
      (answer : List HandleCall → Exchange Out) (s t : Server S T)
      → IsTarget link target pid (rpc_name r) s
      → handle r (fresh s) ≡ some (tt, t)
      → exchange (some r) (reaches link target pid s) answer s ≡ (answer t.calls, t)
  exchange-some link target pid r answer s t v ran =
      rw
        (
          v.address,
          v.provider_id,
          v.rpc_id,
          ==_refl s.provider.provider_id,
          ==_refl (link.id_of target.mid (rpc_name r)),
          ran,
        )
        refl

module _ {J T : Type 0} ⦃json : JsonC J⦄ ⦃h : UtHash (Heap J) T⦄ where
  pub fresh-IsOwned : (s : Server (Heap J) T) → IsOwned s → IsOwned (fresh s)
  fresh-IsOwned s v = same_calls-IsOwned s [] v
