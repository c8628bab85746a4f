-- ===== src/Dummy/Create.antt =====
-- Create and open of a provider with the dummy backend, against the registry.
use soma_c.Prelude.{
  suc, ◌≡◌, refl, ap, ◌∙◌, String, str_eq, Option, none, some, [], ◌∷◌, ◌++◌, arith, if◌then◌else◌,
  Bool-cases, Option-cases, inl, inr,
}
use soma_c.Prelude.State.{M}
use soma_c.Common.{
  ReturnCode, success, CollectorId, Ptr, err_invalid_token, err_invalid_config, err_invalid_backend,
  err_from_mercury,
}
use soma_c.Types.{CreateCollectorIn, CreateCollectorOut}
use soma_c.Backend.{BackendImpl}
use soma_c.Foreign.JsonC.{JsonC}
use soma_c.Foreign.UtHash.{UtHash, find_id}
use soma_c.Provider.State.{Collector, Provider}
use soma_c.Provider.Server.{Server, create_out}
use soma_c.Provider.Backends.{find_backend_impl}
use soma_c.Provider.Backends.Lookup.{first_named, find_backend_impl-first_named}
use soma_c.Provider.Collectors.{check_token, add_collector}
use soma_c.Provider.Collectors.Items.{
  IsWellFormed, collectors_of, add_collector-IsWellFormed, add_collector-new,
  find_collector-find_id,
}
use soma_c.Provider.Handlers.{Supply, make_collector, install}
use soma_c.Provider.Serve.Auth.{answer}
use soma_c.Dummy.{Heap, read_config, dummy_backend, dummy_create_collector, new_context}
use soma_c.Dummy.Owned.{Owns-append, IsAscending-append}
use soma_c.Dummy.Registry.{
  Registry, Reply, reply_of, accepts, creation, registry, IsOwned, IsSendable, IsCreatable,
}
use soma_c.Dummy.Entries.{entries-append}

module _ {J T : Type 0} ⦃json : JsonC J⦄ ⦃h : UtHash (Heap J) T⦄ where
  -- From `s` to `t` with reply `r`, as specified; nothing is called on the handle.
  pub record Refines (s t : Server (Heap J) T) (r : Reply) (spec : Reply × Registry J)
      : Type 0 where
    pub calls : t.calls ≡ s.calls
    pub token : t.provider.token ≡ s.provider.token
    pub reply : r ≡ spec.0
    pub view : registry t ≡ spec.1
    pub owned : IsOwned t

  pub check_token-accepts :
      (p : Provider (Heap J) T) (token : Option String)
      → IsSendable p.token token
      → check_token p token ≡ some (accepts p.token token)
  unfolding check_token
  check_token-accepts p token ok = ground arith

  find_backend_impl-dummy :
      (p : Provider (Heap J) T) (name : String)
      → IsWellFormed p
      → p.backend_types ≡ dummy_backend ∷ []
      → find_backend_impl p (some name)
        ≡ some (if str_eq name "dummy" then some dummy_backend else none)
  unfolding dummy_backend
  find_backend_impl-dummy p name v e =
      find_backend_impl-first_named p name v.backends ∙ ap (λ bs. some (first_named name bs)) e

  -- The server after a collector with the config `j` was entered.
  abbrev entered : Server (Heap J) T → CollectorId → J → Server (Heap J) T
  entered s uuid j = record s {
    provider =
        (add_collector s.provider (record { fn = dummy_backend; ctx = s.world.next; id = uuid })).1;
    world = record s.world {
      next = suc s.world.next;
      live = s.world.live ++ (s.world.next, j) ∷ [];
    };
  }

  token-add_collector :
      (p : Provider (Heap J) T) (c : Collector (Heap J))
      → ((add_collector p c).1.token ≡ p.token)
        × ((add_collector p c).1.backend_types ≡ p.backend_types)
  unfolding add_collector
  token-add_collector p c = ground arith

  entered-Refines :
      (s : Server (Heap J) T) (uuid : CollectorId) (j : J)
      → IsOwned s
      → find_id uuid (collectors_of s.provider) ≡ none
      → Refines s
          (entered s uuid j)
          (Reply.made uuid)
          (Reply.made uuid, registry s ++ (uuid, j) ∷ [])
  entered-Refines s uuid j v new =
      let c : Collector (Heap J) = record { fn = dummy_backend; ctx = s.world.next; id = uuid } in
      let (items, _, _) =
        add_collector-new s.provider c (find_collector-find_id s.provider uuid ∙ new) in
      record {
        calls = refl;
        token = (token-add_collector s.provider c).0;
        reply = refl;
        view =
            rw items
              (entries-append (collectors_of s.provider) s.world.live c s.world.next j v.owns);
        owned = record {
          well_formed = add_collector-IsWellFormed s.provider c v.well_formed;
          backend = (token-add_collector s.provider c).1 ∙ v.backend;
          owns =
              rw items
                (Owns-append (collectors_of s.provider) s.world.live uuid s.world.next j v.owns);
          ascending = IsAscending-append 1 s.world.next s.world.live j v.ascending;
        };
      }

  pub unchanged_as :
      (s : Server (Heap J) T) {r r' : Reply} → r ≡ r' → IsOwned s → Refines s s r (r', registry s)
  unchanged_as s e v = record { calls = refl; token = refl; reply = e; view = refl; owned = v }

  pub unchanged : (s : Server (Heap J) T) (r : Reply) → IsOwned s → Refines s s r (r, registry s)
  unchanged s r v = unchanged_as s refl v

  abbrev pub Creates :
      (BackendImpl (Heap J) → Option String → M (Heap J) (ReturnCode × Ptr))
      → Supply
      → CreateCollectorOut
      → Option CreateCollectorIn
      → Server (Heap J) T
      → Type 0
  Creates make supply out input s =
      (o : CreateCollectorOut) × (t : Server (Heap J) T) × (make_collector make supply out input s
        ≡ some (o, t))
      × Refines s t (reply_of (answer (create_out o)))
          (creation s.provider.token supply.uuid input (registry s))

  pub make_collector-Creates :
      (make : BackendImpl (Heap J) → Option String → M (Heap J) (ReturnCode × Ptr))
      → make dummy_backend ≡ dummy_create_collector
      → (supply : Supply) (out : CreateCollectorOut) (input : Option CreateCollectorIn)
        (s : Server (Heap J) T)
      → IsOwned s
      → IsCreatable s supply input
      → Creates make supply out input s
  unfolding make_collector install dummy_create_collector new_context
  make_collector-Creates make same supply out none s v ok =
      (record out { ret = err_from_mercury }, s, refl, unchanged s _ v)
  make_collector-Creates make same supply out (some i) s v (ok, (name, named), room, granted, new) =
      let checked = check_token-accepts s.provider i.token ok in
      let found = find_backend_impl-dummy s.provider name v.well_formed v.backend in
      elim (Bool-cases (accepts s.provider.token i.token)) [
        | inl allowed ↦ elim (Bool-cases (str_eq name "dummy")) [
          | inr other ↦
              rw (allowed, named, other)
                (record out { ret = err_invalid_backend }, s, ground arith, unchanged s _ v)
          | inl dummy ↦ elim (Option-cases (read_config {J = J} i.config)) [
            | inl bad ↦
                rw (allowed, named, dummy, bad)
                  (
                    record out { ret = err_invalid_config },
                    s,
                    ground (arith, ap (λ f. f i.config s.world) same),
                    unchanged s _ v,
                  )
            | inr (j, good) ↦
                rw (allowed, named, dummy, good)
                  (
                    record { ret = success; id = supply.uuid },
                    entered s supply.uuid j,
                    ground (arith, ap (λ f. f i.config s.world) same),
                    entered-Refines s supply.uuid j v new,
                  )
          ]
        ]
        | inr denied ↦
            rw denied (record out { ret = err_invalid_token }, s, ground arith, unchanged s _ v)
      ]
