-- ===== src/Dummy/Entries.antt =====
-- How the registry changes with the collectors and their contexts.
use soma_c.Prelude.{
  ◌≡◌, refl, true, false, none, some, List, [], ◌∷◌, ◌++◌, map, ap, arith, ◌==◌, Bool-cases, inl,
  inr, suc, ==_refl,
}
use soma_c.Common.{CollectorId, Ptr}
use soma_c.Foreign.JsonC.{JsonC}
use soma_c.Foreign.UtHash.{find_id, erase_id}
use soma_c.Provider.State.{Collector}
use soma_c.Dummy.{Heap, erase_ptr}
use soma_c.Dummy.Owned.{Owns, IsAscending, Owns-find}
use soma_c.Dummy.Registry.{entries, has_key, without, keys}

module _ {J : Type 0} ⦃json : JsonC J⦄ where
  pub entries-append :
      (cs : List (Collector (Heap J))) (ls : List (Ptr × J)) (c : Collector (Heap J)) (p : Ptr)
      (j : J)
      → Owns cs ls
      → entries (cs ++ c ∷ []) (ls ++ (p, j) ∷ []) ≡ entries cs ls ++ (c.id, j) ∷ []
  entries-append [] [] c p j o = refl
  entries-append [] (l ∷ ls) c p j o = absurd o
  entries-append (d ∷ cs) [] c p j o = absurd o
  entries-append (d ∷ cs) ((q, k) ∷ ls) c p j o =
      ap (λ r. (d.id, k) ∷ r) (entries-append cs ls c p j o.2)

  pub has_key-entries :
      (id : CollectorId) (cs : List (Collector (Heap J))) (ls : List (Ptr × J))
      → Owns cs ls
      → has_key id (entries cs ls) ≡ elim (find_id id cs) [ none ↦ false | some c ↦ true ]
  has_key-entries id [] [] o = refl
  has_key-entries id [] (l ∷ ls) o = absurd o
  has_key-entries id (d ∷ cs) [] o = absurd o
  has_key-entries id (d ∷ cs) ((q, k) ∷ ls) o = ground (arith, has_key-entries id cs ls o.2)

  pub keys-entries :
      (cs : List (Collector (Heap J))) (ls : List (Ptr × J))
      → Owns cs ls
      → keys (entries cs ls) ≡ map (λ c. c.id) cs
  keys-entries [] [] o = refl
  keys-entries [] (l ∷ ls) o = absurd o
  keys-entries (d ∷ cs) [] o = absurd o
  keys-entries (d ∷ cs) ((q, k) ∷ ls) o = ap (λ r. d.id ∷ r) (keys-entries cs ls o.2)

  pub entries-erase :
      (lo hi : Ptr) (cs : List (Collector (Heap J))) (ls : List (Ptr × J)) (id : CollectorId)
      (c : Collector (Heap J))
      → Owns cs ls
      → IsAscending lo hi ls
      → find_id id cs ≡ some c
      → entries (erase_id id cs) (erase_ptr c.ctx ls) ≡ without id (entries cs ls)
  entries-erase lo hi [] [] id c o a e = cc
  entries-erase lo hi [] (l ∷ ls) id c o a e = absurd o
  entries-erase lo hi (d ∷ cs) [] id c o a e = absurd o
  entries-erase lo hi (d ∷ cs) ((q, k) ∷ ls) id c o a e = elim (Bool-cases (d.id == id)) [
    | inl hit ↦ let same : d ≡ c = ground arith in rw (hit, ← same, o.0, ==_refl q)
    | inr miss ↦
        let (fn, above, _) = Owns-find (suc q) hi cs ls id c o.2 a.1 (ground arith) in
        let apart : (q == c.ctx) ≡ false = ground arith in
        rw (miss, apart)
          (ap (λ r. (d.id, k) ∷ r) (entries-erase (suc q) hi cs ls id c o.2 a.1 (ground arith)))
  ]
