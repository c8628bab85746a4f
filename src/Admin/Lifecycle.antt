-- ===== src/Admin/Lifecycle.antt =====
-- src/admin.h, soma_admin_init and soma_admin_finalize of src/admin.c.
use soma_c.Prelude.{
  ℕ, ◌≡◌, refl, Bool, true, Option, none, some, arith, if◌then◌else◌, Option-cases, inl, inr,
}
use soma_c.Common.{ReturnCode, success, err_allocation, Ptr}
use soma_c.Types.Layouts.{
  create_collector_in_t, create_collector_out_t, open_collector_in_t, open_collector_out_t,
  close_collector_in_t, close_collector_out_t, destroy_collector_in_t, destroy_collector_out_t,
  list_collectors_in_t, list_collectors_out_t,
}
use soma_c.Foreign.Names.{Names}
use soma_c.Client.Lifecycle.{id_or_zero}

-- struct soma_admin
pub record Admin : Type 0 where
  pub mid : Ptr
  pub create_collector_id : ℕ
  pub open_collector_id : ℕ
  pub close_collector_id : ℕ
  pub destroy_collector_id : ℕ
  pub list_collectors_id : ℕ

-- soma_admin_finalize: what it returns; the administrator, a value here, is freed.
abbrev pub admin_finalize : ReturnCode
admin_finalize = success

module _ {I : Type 0} ⦃names : Names I⦄ where
  -- What soma_admin_init fills in, and what it registers.
  unfoldable pub new_admin : (mid : Ptr) → I → Admin × I
  new_admin mid i = elim (names.registered_name i "soma_create_collector") [
    | some id ↦ (
      record {
        mid = mid;
        create_collector_id = id;
        open_collector_id = id_or_zero (names.registered_name i "soma_open_collector");
        close_collector_id = id_or_zero (names.registered_name i "soma_close_collector");
        destroy_collector_id = id_or_zero (names.registered_name i "soma_destroy_collector");
        list_collectors_id = id_or_zero (names.registered_name i "soma_list_collectors");
      },
      i,
    )
    | none ↦
        let (id1, i1) =
          names.register i "soma_create_collector"
            (create_collector_in_t, some create_collector_out_t) in
        let (id2, i2) =
          names.register i1 "soma_open_collector"
            (open_collector_in_t, some open_collector_out_t) in
        let (id3, i3) =
          names.register i2 "soma_close_collector"
            (close_collector_in_t, some close_collector_out_t) in
        let (id4, i4) =
          names.register i3 "soma_destroy_collector"
            (destroy_collector_in_t, some destroy_collector_out_t) in
        let (id5, i5) =
          names.register i4 "soma_list_collectors"
            (list_collectors_in_t, some list_collectors_out_t) in
        (
          record {
            mid = mid;
            create_collector_id = id1;
            open_collector_id = id2;
            close_collector_id = id3;
            destroy_collector_id = id4;
            list_collectors_id = id5;
          },
          i5,
        )
  ]

  -- soma_admin_init
  unfoldable pub admin_init : (mid : Ptr) → (calloc_ok : Bool) → I → (ReturnCode × Option Admin) × I
  admin_init mid calloc_ok i =
      if calloc_ok
      then (let (a, j) = new_admin mid i in ((success, some a), j))
      else ((err_allocation, none), i)

  -- The RPCs of an administrator are registered together, or the first of them is not.
  abbrev pub AreTogether : I → Type 0
  AreTogether i = elim (names.registered_name i "soma_create_collector") [
    | none ↦ Unit
    | some id ↦
        ((k : ℕ) × (names.registered_name i "soma_open_collector" ≡ some k))
        × ((k : ℕ) × (names.registered_name i "soma_close_collector" ≡ some k))
        × ((k : ℕ) × (names.registered_name i "soma_destroy_collector" ≡ some k))
        × ((k : ℕ) × (names.registered_name i "soma_list_collectors" ≡ some k))
  ]

  -- The five RPCs are registered under the ids that the administrator holds.
  pub record Knows (i : I) (a : Admin) : Type 0 where
    pub create : names.registered_name i "soma_create_collector" ≡ some a.create_collector_id
    pub opened : names.registered_name i "soma_open_collector" ≡ some a.open_collector_id
    pub close : names.registered_name i "soma_close_collector" ≡ some a.close_collector_id
    pub destroy : names.registered_name i "soma_destroy_collector" ≡ some a.destroy_collector_id
    pub list : names.registered_name i "soma_list_collectors" ≡ some a.list_collectors_id

  found_admin-Knows :
      (mid : Ptr) (i : I) (id : ℕ)
      → names.registered_name i "soma_create_collector" ≡ some id
      → AreTogether i
      → Knows (new_admin mid i).1 (new_admin mid i).0
  unfolding new_admin
  found_admin-Knows mid i id e all = record {
    create = ground arith;
    opened = ground arith;
    close = ground arith;
    destroy = ground arith;
    list = ground arith;
  }

  made_admin-Knows :
      (mid : Ptr) (i : I)
      → names.registered_name i "soma_create_collector" ≡ none
      → Knows (new_admin mid i).1 (new_admin mid i).0
  unfolding new_admin
  made_admin-Knows mid i e =
      rw (new_admin, e)
        (record {
          create = simp names.registered_name-register refl;
          opened = simp names.registered_name-register refl;
          close = simp names.registered_name-register refl;
          destroy = simp names.registered_name-register refl;
          list = simp names.registered_name-register refl;
        })

  new_admin_again :
      (mid : Ptr) (j : I) (a : Admin) → Knows j a → a.mid ≡ mid → new_admin mid j ≡ (a, j)
  unfolding new_admin
  new_admin_again mid j a k m = ground (arith, k.create, k.opened, k.close, k.destroy, k.list)

  mid-new_admin : (mid : Ptr) (i : I) → (new_admin mid i).0.mid ≡ mid
  unfolding new_admin
  mid-new_admin mid i = ground arith

  -- On an instance where the other four RPCs are registered if soma_create_collector is,
  -- soma_admin_init gives the new administrator the ids of the five RPCs, all of them registered
  -- then; another initialization registers nothing, and makes an equal administrator.
  pub admin_init_again :
      (mid : Ptr) (i : I)
      → AreTogether i
      → (a : Admin) × (j : I) × (admin_init mid true i ≡ ((success, some a), j))
        × Knows j a
        × (admin_init mid true j ≡ ((success, some a), j))
  unfolding admin_init
  admin_init_again mid i all =
      let (a, j) = new_admin mid i in
      let known : Knows j a =
        elim (Option-cases (names.registered_name i "soma_create_collector")) [
          | inl missing ↦ made_admin-Knows mid i missing
          | inr (id, there) ↦ found_admin-Knows mid i id there all
        ] in
      (a, j, refl, known, rw (new_admin_again mid j a known (mid-new_admin mid i)) refl)
