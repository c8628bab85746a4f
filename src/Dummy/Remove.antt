-- ===== src/Dummy/Remove.antt =====
-- Close and destroy of a provider with the dummy backend, against the registry.
use soma_c.Prelude.{
  ◌≡◌, refl, ap, ◌∙◌, sym, true, false, Option, none, some, arith, Bool-cases, Option-cases, inl,
  inr,
}
use soma_c.Prelude.State.{M}
use soma_c.Common.{
  ReturnCode, success, CollectorId, err_invalid_token, err_invalid_collector, err_from_mercury,
}
use soma_c.Types.{CloseCollectorIn}
use soma_c.Foreign.JsonC.{JsonC}
use soma_c.Foreign.UtHash.{UtHash}
use soma_c.Provider.State.{Collector, Provider}
use soma_c.Provider.Server.{Server}
use soma_c.Provider.Collectors.{find_collector, unlink_collector, remove_collector}
use soma_c.Provider.Collectors.Items.{
  collectors_of, unlink_collector-items, unlink_collector-IsWellFormed, find_collector-find_id,
}
use soma_c.Provider.Handlers.{close_body, destroy_body}
use soma_c.Dummy.{
  Heap, dummy_backend, erase_ptr, free_context, dummy_close_collector, dummy_destroy_collector,
}
use soma_c.Dummy.Owned.{Owns-find, Owns-erase, erase_ptr-IsAscending}
use soma_c.Dummy.Registry.{code, accepts, removal, registry, IsOwned, IsSendable, has_key, without}
use soma_c.Dummy.Entries.{has_key-entries, entries-erase}
use soma_c.Dummy.Create.{Refines, check_token-accepts, unchanged}

module _ {J T : Type 0} ⦃json : JsonC J⦄ ⦃h : UtHash (Heap J) T⦄ where
  -- The server after a collector and its context were given up.
  abbrev removed : Server (Heap J) T → Collector (Heap J) → Server (Heap J) T
  removed s c = record s {
    provider = unlink_collector s.provider c;
    world = record s.world { live = erase_ptr c.ctx s.world.live };
  }

  unlink_collector-fields :
      (p : Provider (Heap J) T) (c : Collector (Heap J))
      → ((unlink_collector p c).token ≡ p.token)
        × ((unlink_collector p c).backend_types ≡ p.backend_types)
  unfolding unlink_collector
  unlink_collector-fields p c = (refl, refl)

  removed-Refines :
      (s : Server (Heap J) T) (id : CollectorId) (c : Collector (Heap J))
      → IsOwned s
      → find_collector s.provider id ≡ some c
      → Refines s (removed s c) (code success) (code success, without id (registry s))
  removed-Refines s id c v found =
      let cs = collectors_of s.provider in
      let items = unlink_collector-items s.provider id c found in
      let found' = sym (find_collector-find_id s.provider id) ∙ found in
      record {
        calls = refl;
        token = (unlink_collector-fields s.provider c).0;
        reply = refl;
        view =
            rw items (entries-erase 1 s.world.next cs s.world.live id c v.owns v.ascending found');
        owned = record {
          well_formed = unlink_collector-IsWellFormed s.provider id c v.well_formed found;
          backend = (unlink_collector-fields s.provider c).1 ∙ v.backend;
          owns =
              rw items (Owns-erase 1 s.world.next cs s.world.live id c v.owns v.ascending found');
          ascending = erase_ptr-IsAscending c.ctx 1 s.world.next s.world.live v.ascending;
        };
      }

  -- Both ways to give a collector up.
  close_collector-removed :
      (s : Server (Heap J) T) (id : CollectorId) (c : Collector (Heap J))
      → IsOwned s
      → find_collector s.provider id ≡ some c
      → (remove_collector id true s ≡ some (success, removed s c))
        × (c.fn.destroy_collector c.ctx s.world ≡ some (success, (removed s c).world))
  unfolding remove_collector dummy_backend dummy_close_collector dummy_destroy_collector
      free_context
  close_collector-removed s id c v found =
      let found' = sym (find_collector-find_id s.provider id) ∙ found in
      let (fn, _, (j, live)) =
        Owns-find 1 s.world.next (collectors_of s.provider) s.world.live id c v.owns v.ascending
          found' in
      (
        ground (arith, ap (λ f. f.close_collector c.ctx s.world) fn),
        ground (arith, ap (λ f. f.destroy_collector c.ctx s.world) fn),
      )

  abbrev pub Removes :
      (Option CloseCollectorIn → M (Server (Heap J) T) ReturnCode)
      → Option CloseCollectorIn
      → Server (Heap J) T
      → Type 0
  Removes body input s =
      (ret : ReturnCode) × (t : Server (Heap J) T) × (body input s ≡ some (ret, t))
      × Refines s t (code ret) (removal s.provider.token input (registry s))

  abbrev pub IsRemovable : Server (Heap J) T → Option CloseCollectorIn → Type 0
  IsRemovable s none = Unit
  IsRemovable s (some i) = IsSendable s.provider.token i.token

  pub has_key-registry :
      (s : Server (Heap J) T) (id : CollectorId)
      → IsOwned s
      → has_key id (registry s)
        ≡ elim (find_collector s.provider id) [ none ↦ false | some c ↦ true ]
  has_key-registry s id v =
      rw (find_collector-find_id s.provider id)
        (has_key-entries id (collectors_of s.provider) s.world.live v.owns)

  pub close_body-Removes :
      (input : Option CloseCollectorIn) (s : Server (Heap J) T)
      → IsOwned s
      → IsRemovable s input
      → Removes close_body input s
  unfolding close_body
  close_body-Removes none s v ok = (err_from_mercury, s, refl, unchanged s _ v)
  close_body-Removes (some i) s v ok =
      let checked = check_token-accepts s.provider i.token ok in
      let has = has_key-registry s i.id v in
      elim (Bool-cases (accepts s.provider.token i.token)) [
        | inr denied ↦ rw denied (err_invalid_token, s, ground arith, unchanged s _ v)
        | inl allowed ↦ elim (Option-cases (find_collector s.provider i.id)) [
          | inl missing ↦
              rw (allowed, has, missing)
                (err_invalid_collector, s, unfold remove_collector in ground arith, unchanged s _ v)
          | inr (c, found) ↦
              rw (allowed, has, found)
                (
                  success,
                  removed s c,
                  ground (arith, close_collector-removed s i.id c v found),
                  removed-Refines s i.id c v found,
                )
        ]
      ]

  pub destroy_body-Removes :
      (input : Option CloseCollectorIn) (s : Server (Heap J) T)
      → IsOwned s
      → IsRemovable s input
      → Removes destroy_body input s
  unfolding destroy_body
  destroy_body-Removes none s v ok = (err_from_mercury, s, refl, unchanged s _ v)
  destroy_body-Removes (some i) s v ok =
      let checked = check_token-accepts s.provider i.token ok in
      let has = has_key-registry s i.id v in
      elim (Bool-cases (accepts s.provider.token i.token)) [
        | inr denied ↦ rw denied (err_invalid_token, s, ground arith, unchanged s _ v)
        | inl allowed ↦ elim (Option-cases (find_collector s.provider i.id)) [
          | inl missing ↦
              rw (allowed, has, missing) (err_invalid_collector, s, ground arith, unchanged s _ v)
          | inr (c, found) ↦
              rw (allowed, has, found)
                (
                  success,
                  removed s c,
                  unfold remove_collector in
                      ground (arith, close_collector-removed s i.id c v found),
                  removed-Refines s i.id c v found,
                )
        ]
      ]
