-- ===== src/Examples/Admin/Run.antt =====
-- src/examples/admin.c against a provider with the dummy backend.
use soma_c.Prelude.{
  ℕ, suc, ◌+◌, ◌<◌, ◌≡◌, refl, sym, ap, ◌∙◌, String, true, none, some, List, [], ◌∷◌, ◌++◌, arith,
  length, take, get_elem?, append_assoc, append-nil, length-append,
}
use soma_c.Prelude.Int.{pos}
use soma_c.Common.{is_success, Ptr, CollectorId}
use soma_c.Common.IdText.{collector_id_to_string}
use soma_c.Foreign.LibUuid.{LibUuid}
use soma_c.Foreign.Names.{Names}
use soma_c.Foreign.JsonC.{JsonC}
use soma_c.Foreign.Mercury.{Mercury}
use soma_c.Foreign.UtHash.{UtHash, find_id}
use soma_c.Provider.Server.{Server}
use soma_c.Provider.Handlers.{uint_mod}
use soma_c.Provider.Collectors.Items.{collectors_of}
use soma_c.Dummy.{Heap, read_config}
use soma_c.Dummy.Registry.{Registry, keys}
use soma_c.Admin.Lifecycle.{new_admin, admin_init, admin_finalize}
use soma_c.Examples.Process.{
  Process, Line, returned_ids, id_is, done, ◌>>=◌, ◌>>◌, on_remote, on_remote_or_fault, step,
  or_fatal, pure, uint16,
}
use soma_c.EndToEnd.Link.{Link, linked}
use soma_c.Examples.Serving.{IsServing, IsAnswering, IsNaming}
use soma_c.Examples.Requests.{create-enters, list-copies}
use soma_c.Examples.Admin.{Libraries, IsAtHand, print_ids, admin_run, admin_main}

-- The lines that the loop prints from index `i` on.
abbrev pub printed : LibUuid → ℕ → List CollectorId → List Line
printed uuid i [] = []
printed uuid i (id ∷ ids) = id_is i (collector_id_to_string uuid id) ∷ printed uuid (i + 1) ids

get_elem?-middle :
    {A : Type 0} (xs ys : List A) (a : A) → get_elem? (xs ++ a ∷ ys) (length xs) ≡ some a
get_elem?-middle [] ys a = refl
get_elem?-middle (x ∷ xs) ys a = get_elem?-middle xs ys a

module _ {I S : Type 0} where
  abbrev logged : Process I S → List Line → Process I S
  logged p ls = record p { log = p.log ++ ls }

  print_ids-printed :
      (uuid : LibUuid) (xs ids : List CollectorId) (i : ℕ) (p : Process I S)
      → length xs ≡ i
      → print_ids uuid (length ids) i (xs ++ ids) p ≡ some (done tt, logged p (printed uuid i ids))
  unfolding print_ids
  print_ids-printed uuid xs [] i p e =
      ap (λ l. some (done tt, record p { log = l })) (sym (append-nil p.log))
  print_ids-printed uuid xs (id ∷ ids) i p e =
      let line = id_is i (collector_id_to_string uuid id) in
      let there : get_elem? (xs ++ id ∷ ids) i ≡ some id = rw (← e) (get_elem?-middle xs ids id) in
      let rest =
        print_ids-printed uuid (xs ++ id ∷ []) ids (i + 1) (logged p (line ∷ []))
          (length-append xs (id ∷ []) ∙ ap (λ n. n + 1) e) in
      let rest' : print_ids uuid (length ids) (i + 1) (xs ++ id ∷ ids) (logged p (line ∷ []))
          ≡ some (done tt, logged p (line ∷ printed uuid (i + 1) ids)) =
        rw
          (append_assoc xs (id ∷ []) ids, append_assoc p.log (line ∷ []) (printed uuid (i + 1) ids))
          at rest in
      rw there rest'

module _ {I : Type 0} ⦃names : Names I⦄ where
  -- A new administrator has the ids that Margo gives the names.
  new_admin-ids :
      (link : Link) (mid : Ptr) (i : I)
      → IsNaming link mid "soma_create_collector" i
      → let admin = (new_admin mid i).0 in
        (admin.create_collector_id ≡ link.id_of admin.mid "soma_create_collector")
        × (admin.list_collectors_id ≡ link.id_of admin.mid "soma_list_collectors")
  unfolding new_admin
  new_admin-ids link mid i v = rw (new_admin, v.missing) (v.registers _ _ _, v.registers _ _ _)

module _ {J T I : Type 0} ⦃json : JsonC J⦄ ⦃h : UtHash (Heap J) T⦄ ⦃names : Names I⦄ where
  pub admin_main-enters :
      (W : Type 0) ⦃m : Mercury W⦄ (libs : Libraries) (link : Link) (mid addr : Ptr)
      (name address id : String) (reg : Registry J) (config : J) (p : Process I (Server (Heap J) T))
      → IsAtHand libs address mid addr
      → IsAnswering link addr
      → IsNaming link mid "soma_create_collector" p.names
      → IsServing p.remote (uint16 (libs.atoi id)) reg
      → suc (length reg) < uint_mod
      → p.remote.world.grants p.remote.world.next ≡ true
      → find_id link.supply.uuid (collectors_of p.remote.provider) ≡ none
      → read_config (some "{}") ≡ some config
      → let after = reg ++ (link.supply.uuid, config) ∷ [] in
        let ids = take 4 (keys after) in
        (q : Process I (Server (Heap J) T)) × (admin_main libs
            (linked W link)
            (name ∷ address ∷ id ∷ [])
            p
          ≡ some (done (pos 0), q))
        × IsServing q.remote (uint16 (libs.atoi id)) after
        × (q.log ≡ p.log ++ returned_ids (length ids) ∷ printed libs.uuid 0 ids)
        × (q.store ≡ p.store)
  unfolding admin_main admin_run admin_init
  admin_main-enters W libs link mid addr name address id reg config p w l naming v few room new
        parsed =
      let pid = uint16 (libs.atoi id) in
      let after = reg ++ (link.supply.uuid, config) ∷ [] in
      let ids = take 4 (keys after) in
      let (admin, n) = new_admin mid p.names in
      let (create_id, list_id) = new_admin-ids link mid p.names naming in
      let (made, t, created, moved, good1, v1) =
        create-enters W link admin addr pid p.remote reg config v l.here create_id l.supplied room
          new parsed in
      let (listed, u, sent, moved2, good2, written, v2) =
        list-copies W link admin addr pid t after v1 l.here list_id l.calloc
          (omega (arith, few, length-append reg ((link.supply.uuid, config) ∷ []))) l.memory in
      let loop =
        print_ids-printed libs.uuid [] ids 0
          (record p { names = n; remote = u; log = p.log ++ returned_ids (length ids) ∷ [] })
          refl in
      (
        record p {
          names = n;
          remote = u;
          log = p.log ++ returned_ids (length ids) ∷ printed libs.uuid 0 ids;
        },
        rw (w.inited, w.looked, w.calloc)
            (rw (created, ◌>>=◌, on_remote)
              (rw (moved, good1, ◌>>=◌)
                (rw (sent, ◌>>=◌, on_remote_or_fault)
                  (rw (moved2, good2, written)
                    (step (print_ids libs.uuid (length ids) 0 ids)
                        (λ _.
                          or_fatal (is_success admin_finalize)
                          >> (or_fatal libs.addr_free_ok >> pure (pos 0)))
                        _ _ tt loop
                      ∙ rw w.freed (
                          ap (λ l. some (done (pos 0), record p { names = n; remote = u; log = l }))
                            (append_assoc p.log (returned_ids (length ids) ∷ [])
                              (printed libs.uuid 0 ids)))))))),
        v2,
        refl,
        refl,
      )
