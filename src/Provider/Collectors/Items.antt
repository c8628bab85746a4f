-- ===== src/Provider/Collectors/Items.antt =====
-- The hash of collectors seen as the list of its items.
use soma_c.Prelude.{
  ◌%◌, ◌≡◌, none, some, List, [], ◌∷◌, ◌++◌, arith, length, length-append, Option-cases, inl, inr,
}
use soma_c.Common.{success, err_invalid_collector, CollectorId}
use soma_c.Foreign.UtHash.{
  UtHash, find_id, erase_id, IsKeyed, id-find_id, append-IsKeyed, erase_id-IsKeyed, length-erase_id,
}
use soma_c.Provider.State.{Collector, Provider}
use soma_c.Provider.Backends.{size_mod, incr_size}
use soma_c.Provider.Collectors.{find_collector, add_collector, unlink_collector}

module _ {W T : Type 0} ⦃h : UtHash W T⦄ where
  -- The collectors of a provider, in the order of their creation.
  abbrev pub collectors_of : Provider W T → List (Collector W)
  collectors_of p = h.items p.collectors

  -- `num_collectors` counts the collectors (as a size_t), the ids of the collectors differ, and
  -- `num_backend_types` counts the backends.
  pub record IsWellFormed (p : Provider W T) : Type 0 where
    pub counted : p.num_collectors ≡ length (collectors_of p) % size_mod
    pub keyed : IsKeyed (collectors_of p)
    pub backends : p.num_backend_types ≡ length p.backend_types

  pub find_collector-find_id :
      (p : Provider W T) (id : CollectorId) → find_collector p id ≡ find_id id (collectors_of p)
  unfolding find_collector
  find_collector-find_id p id = h.find-items p.collectors id

  pub id-find_collector :
      (p : Provider W T) (id : CollectorId) (c : Collector W)
      → find_collector p id ≡ some c
      → c.id ≡ id
  id-find_collector p id c e =
      ground (arith, id-find_id id (collectors_of p) c, find_collector-find_id p id)

  pub add_collector-new :
      (p : Provider W T) (c : Collector W)
      → find_collector p c.id ≡ none
      → (collectors_of (add_collector p c).1 ≡ collectors_of p ++ c ∷ [])
        × ((add_collector p c).1.num_collectors ≡ incr_size p.num_collectors)
        × ((add_collector p c).0 ≡ success)
  unfolding add_collector find_collector
  add_collector-new p c e = ground (arith, h.items-add p.collectors c)

  pub add_collector-old :
      (p : Provider W T) (c d : Collector W)
      → find_collector p c.id ≡ some d
      → add_collector p c ≡ (err_invalid_collector, p)
  unfolding add_collector find_collector
  add_collector-old p c d e = ground arith

  pub add_collector-IsWellFormed :
      (p : Provider W T) (c : Collector W) → IsWellFormed p → IsWellFormed (add_collector p c).1
  unfolding add_collector find_collector
  add_collector-IsWellFormed p c v = elim (Option-cases (find_collector p c.id)) [
    | inr (d, e) ↦ ground arith
    | inl e ↦ ground (
      arith,
      h.items-add p.collectors c,
      length-append {0} (collectors_of p) (c ∷ []),
      append-IsKeyed (collectors_of p) c v.keyed,
      find_collector-find_id p c.id,
    )
  ]

  pub unlink_collector-items :
      (p : Provider W T) (id : CollectorId) (c : Collector W)
      → find_collector p id ≡ some c
      → collectors_of (unlink_collector p c) ≡ erase_id id (collectors_of p)
  unfolding unlink_collector find_collector
  unlink_collector-items p id c e =
      ground (arith, h.items-del p.collectors c, id-find_collector p id c)

  pub unlink_collector-IsWellFormed :
      (p : Provider W T) (id : CollectorId) (c : Collector W)
      → IsWellFormed p
      → find_collector p id ≡ some c
      → IsWellFormed (unlink_collector p c)
  unfolding unlink_collector
  unlink_collector-IsWellFormed p id c v e = ground (
    arith,
    unlink_collector-items p id c,
    length-erase_id id (collectors_of p) c,
    erase_id-IsKeyed id (collectors_of p) v.keyed,
    find_collector-find_id p id,
  )
