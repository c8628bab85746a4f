-- ===== src/Examples/Serving.antt =====
-- A provider that the example programs can use.
use soma_c.Prelude.{
  ℕ, ◌<◌, ◌≤◌, ◌≡◌, refl, sym, ap, ◌∙◌, String, true, none, some, arith, length, subst, map,
  length-map,
}
use soma_c.Common.{CollectorId, Ptr}
use soma_c.Foreign.JsonC.{JsonC}
use soma_c.Foreign.UtHash.{UtHash}
use soma_c.Foreign.Names.{Names}
use soma_c.Types.Layouts.{Signature}
use soma_c.Provider.Server.{Server}
use soma_c.Provider.Handlers.{uint_mod}
use soma_c.Provider.Collectors.Items.{collectors_of}
use soma_c.Provider.Serve.{Request, handle}
use soma_c.Provider.Serve.Invariant.{handle-Answers}
use soma_c.Dummy.{Heap}
use soma_c.Dummy.Registry.{Registry, IsOwned, IsServable, IsSendable, registry, keys}
use soma_c.Dummy.Serve.{handle-Serves}
use soma_c.Dummy.Entries.{keys-entries}
use soma_c.Provider.State.{Collector}
use soma_c.Stub.{Target}
use soma_c.EndToEnd.Link.{Link, IsTarget, fresh, fresh-IsOwned}

-- The address is the provider's, and memory is at hand at both ends.
pub record IsAnswering (link : Link) (addr : Ptr) : Type 0 where
  pub here : link.is_address addr ≡ true
  pub supplied : link.supply.calloc_ok ≡ true
  pub calloc : link.calloc_ok ≡ true
  pub memory : (n : ℕ) → n ≤ 4 → link.grants n ≡ true

-- Margo gives a name that is registered on the process's instance this id, and the process has not
-- registered the RPC `first` yet.
pub record IsNaming {I : Type 0} ⦃names : Names I⦄ (link : Link) (mid : Ptr) (first : String)
    (i : I) : Type 0 where
  pub registers : (j : I) (n : String) (g : Signature) → (names.register j n g).0 ≡ link.id_of mid n
  pub missing : names.registered_name i first ≡ none

module _ {J T : Type 0} ⦃json : JsonC J⦄ ⦃h : UtHash (Heap J) T⦄ where
  -- A provider without a token that owns its contexts, which answers to this provider id, with this
  -- registry.
  pub record IsServing (s : Server (Heap J) T) (pid : ℕ) (reg : Registry J) : Type 0 where
    pub owned : IsOwned s
    pub token : s.provider.token ≡ none
    pub provider_id : s.provider.provider_id ≡ pid
    pub view : registry s ≡ reg

  -- A servable request keeps the provider serving.
  pub handle-IsServing :
      (r : Request) (s t : Server (Heap J) T) (pid : ℕ) (reg : Registry J)
      → IsServing s pid reg
      → IsServable (fresh s) r
      → handle r (fresh s) ≡ some (tt, t)
      → IsServing t pid (registry t)
  handle-IsServing r s t pid reg v ok ran =
      let (u, cs, e, _, kept, _, owned) = handle-Serves r (fresh s) (fresh-IsOwned s v.owned) ok in
      let one : u ≡ t = ground arith in
      let differs = (handle-Answers r (fresh s) t ran).1 in
      record {
        owned = rw (← one) owned;
        token = rw (← one) (kept ∙ v.token);
        provider_id = ap (λ q. q.provider_id) differs ∙ v.provider_id;
        view = refl;
      }

  pub sent-none :
      (s : Server (Heap J) T) → s.provider.token ≡ none → IsSendable s.provider.token none
  sent-none s e = rw e tt

  pub IsServing-IsTarget :
      (s : Server (Heap J) T) (link : Link) (target : Target) (pid : ℕ) (name : String)
      (reg : Registry J)
      → IsServing s pid reg
      → link.is_address target.address ≡ true
      → target.rpc_id ≡ link.id_of target.mid name
      → IsTarget link target pid name s
  IsServing-IsTarget s link target pid name reg v here known = record {
    address = here;
    provider_id = sym v.provider_id;
    rpc_id = known;
  }

  pub view-IsServing :
      (s : Server (Heap J) T) (pid : ℕ) (reg reg' : Registry J)
      → reg ≡ reg'
      → IsServing s pid reg
      → IsServing s pid reg'
  view-IsServing s pid reg reg' e v = subst (λ r. IsServing s pid r) e v

  pub collectors-lt :
      (s : Server (Heap J) T) (pid : ℕ) (reg : Registry J)
      → IsServing s pid reg
      → length reg < uint_mod
      → length (collectors_of s.provider) < uint_mod
  collectors-lt s pid reg v few =
      let same : length (keys (registry s)) ≡ length (map (λ c. c.id) (collectors_of s.provider)) =
        ap length (keys-entries (collectors_of s.provider) s.world.live v.owned.owns) in
      let ids = length-map (λ (c : Collector (Heap J)). c.id) (collectors_of s.provider) in
      let entries = length-map (λ (e : CollectorId × J). e.0) (registry s) in
      let view = ap length v.view in omega (arith, same, ids, entries, view, few)
