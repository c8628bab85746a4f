-- ===== src/Provider/Collectors.antt =====
-- The functions of src/provider.c on the hash of collectors, and check_token.
pub mod Items
use soma_c.Prelude.{String, Bool, true, Option, none, some, List, [], ◌∷◌, if◌then◌else◌}
use soma_c.Prelude.State.{M, pure, gets, ◌>>=◌, ◌>>◌}
use soma_c.Common.{ReturnCode, success, err_invalid_collector, CollectorId}
use soma_c.Foreign.UtHash.{UtHash}
use soma_c.Provider.State.{Collector, Provider}
use soma_c.Provider.Server.{Server, in_world, set_provider}
use soma_c.Provider.Backends.{incr_size, decr_size, strcmp_eq}

-- check_token: `none` is the fault of strcmp at a NULL token.
unfoldable pub check_token : {W T : Type 0} → Provider W T → Option String → Option Bool
check_token p token = elim p.token [ none ↦ some true | some secret ↦ strcmp_eq token secret ]

module _ {W T : Type 0} ⦃h : UtHash W T⦄ where
  unfoldable pub find_collector : Provider W T → CollectorId → Option (Collector W)
  find_collector p id = h.find p.collectors id

  unfoldable pub add_collector : Provider W T → Collector W → ReturnCode × Provider W T
  add_collector p c = elim (find_collector p c.id) [
    | some existing ↦ (err_invalid_collector, p)
    | none ↦ (
      success,
      record p { collectors = h.add p.collectors c; num_collectors = incr_size p.num_collectors },
    )
  ]

  -- HASH_DEL and the decrement; `free(collector)` leaves nothing to see in the model.
  unfoldable pub unlink_collector : Provider W T → Collector W → Provider W T
  unlink_collector p c = record p {
    collectors = h.del p.collectors c;
    num_collectors = decr_size p.num_collectors;
  }

  abbrev close_if : Bool → Collector W → M (Server W T) ReturnCode
  close_if close_collector c =
      if close_collector then in_world (c.fn.close_collector c.ctx) else pure success

  unfoldable pub remove_collector : CollectorId → Bool → M (Server W T) ReturnCode
  remove_collector id close_collector s = elim (find_collector s.provider id) [
    | none ↦ some (err_invalid_collector, s)
    | some c ↦
        (do
          ret ← close_if close_collector c
          p ← gets (λ t. t.provider)
          set_provider (unlink_collector p c)
          pure ret)
          s
  ]

  -- The body of HASH_ITER for each item: the iteration allows the deletion of the item at hand.
  unfoldable pub close_each : List (Collector W) → M (Server W T) (Unit {0})
  close_each [] = pure tt
  close_each (r ∷ rs) = do
    p ← gets (λ t. t.provider)
    set_provider (record p { collectors = h.del p.collectors r })
    ret ← in_world (r.fn.close_collector r.ctx)
    close_each rs

  unfoldable pub remove_all_collectors : M (Server W T) (Unit {0})
  remove_all_collectors s =
      (do
        close_each (h.items s.provider.collectors)
        p ← gets (λ t. t.provider)
        set_provider (record p { num_collectors = 0 }))
        s
