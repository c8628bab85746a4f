-- ===== src/Dummy/Owned.antt =====
-- Collectors of the dummy backend side by side with the contexts that are allocated.
use soma_c.Prelude.{
  suc, ◌≤◌, ◌<◌, ◌≡◌, refl, none, some, List, [], ◌∷◌, ◌++◌, arith, ◌==◌, Bool-cases, inl, inr,
  ==_refl, false,
}
use soma_c.Common.{CollectorId, Ptr}
use soma_c.Foreign.JsonC.{JsonC}
use soma_c.Foreign.UtHash.{find_id, erase_id}
use soma_c.Provider.State.{Collector}
use soma_c.Dummy.{Heap, find_ptr, erase_ptr, dummy_backend}

module _ {J : Type 0} where
  -- The pointers ascend, from `lo` on, and lie below `hi`.
  abbrev pub IsAscending : (lo hi : Ptr) → List (Ptr × J) → Type 0
  IsAscending lo hi [] = lo ≤ hi
  IsAscending lo hi ((p, j) ∷ ls) = (lo ≤ p) × IsAscending (suc p) hi ls

  pub IsAscending-append :
      (lo hi : Ptr) (ls : List (Ptr × J)) (j : J)
      → IsAscending lo hi ls
      → IsAscending lo (suc hi) (ls ++ (hi, j) ∷ [])
  IsAscending-append lo hi [] j a = omega arith
  IsAscending-append lo hi ((p, k) ∷ ls) j a = (a.0, IsAscending-append (suc p) hi ls j a.1)

  IsAscending-mono :
      (lo lo' hi : Ptr) (ls : List (Ptr × J))
      → lo' ≤ lo
      → IsAscending lo hi ls
      → IsAscending lo' hi ls
  IsAscending-mono lo lo' hi [] le a = omega arith
  IsAscending-mono lo lo' hi ((p, k) ∷ ls) le a = (omega arith, a.1)

  pub erase_ptr-IsAscending :
      (p lo hi : Ptr) (ls : List (Ptr × J))
      → IsAscending lo hi ls
      → IsAscending lo hi (erase_ptr p ls)
  erase_ptr-IsAscending p lo hi [] a = a
  erase_ptr-IsAscending p lo hi ((q, k) ∷ ls) a =
      ground (arith, erase_ptr-IsAscending p (suc q) hi ls a.1, IsAscending-mono (suc q) lo hi ls)

  pub find_ptr-below :
      (p lo hi : Ptr) (ls : List (Ptr × J)) → IsAscending lo hi ls → p < lo → find_ptr p ls ≡ none
  find_ptr-below p lo hi [] a lt = refl
  find_ptr-below p lo hi ((q, k) ∷ ls) a lt = ground (arith, find_ptr-below p (suc q) hi ls a.1)

module _ {J : Type 0} ⦃json : JsonC J⦄ where
  -- Each collector has the dummy backend, and the contexts of the collectors are the allocated
  -- ones, in the same order.
  abbrev pub Owns : List (Collector (Heap J)) → List (Ptr × J) → Type 0
  Owns [] [] = Unit
  Owns [] (l ∷ ls) = ⊥
  Owns (c ∷ cs) [] = ⊥
  Owns (c ∷ cs) ((p, j) ∷ ls) = (c.ctx ≡ p) × (c.fn ≡ dummy_backend) × Owns cs ls

  pub Owns-append :
      (cs : List (Collector (Heap J))) (ls : List (Ptr × J)) (id : CollectorId) (p : Ptr) (j : J)
      → Owns cs ls
      → Owns (cs ++ record { fn = dummy_backend; ctx = p; id = id } ∷ []) (ls ++ (p, j) ∷ [])
  Owns-append [] [] id p j o = (refl, refl, tt)
  Owns-append [] (l ∷ ls) id p j o = absurd o
  Owns-append (c ∷ cs) [] id p j o = absurd o
  Owns-append (c ∷ cs) ((q, k) ∷ ls) id p j o = (o.0, o.1, Owns-append cs ls id p j o.2)

  -- The context of a collector that is found is allocated, at or above `lo`.
  pub Owns-find :
      (lo hi : Ptr) (cs : List (Collector (Heap J))) (ls : List (Ptr × J)) (id : CollectorId)
      (c : Collector (Heap J))
      → Owns cs ls
      → IsAscending lo hi ls
      → find_id id cs ≡ some c
      → (c.fn ≡ dummy_backend) × (lo ≤ c.ctx) × ((j : J) × (find_ptr c.ctx ls ≡ some j))
  Owns-find lo hi [] [] id c o a e = cc
  Owns-find lo hi [] (l ∷ ls) id c o a e = absurd o
  Owns-find lo hi (d ∷ cs) [] id c o a e = absurd o
  Owns-find lo hi (d ∷ cs) ((q, k) ∷ ls) id c o a e = elim (Bool-cases (d.id == id)) [
    | inl hit ↦
        let same : d ≡ c = ground arith in rw (← same) (o.1, ground arith, (k, ground arith))
    | inr miss ↦
        let (fn, above, (j, live)) = Owns-find (suc q) hi cs ls id c o.2 a.1 (ground arith) in
        (fn, omega arith, (j, ground arith))
  ]

  pub Owns-erase :
      (lo hi : Ptr) (cs : List (Collector (Heap J))) (ls : List (Ptr × J)) (id : CollectorId)
      (c : Collector (Heap J))
      → Owns cs ls
      → IsAscending lo hi ls
      → find_id id cs ≡ some c
      → Owns (erase_id id cs) (erase_ptr c.ctx ls)
  Owns-erase lo hi [] [] id c o a e = cc
  Owns-erase lo hi [] (l ∷ ls) id c o a e = absurd o
  Owns-erase lo hi (d ∷ cs) [] id c o a e = absurd o
  Owns-erase lo hi (d ∷ cs) ((q, k) ∷ ls) id c o a e = elim (Bool-cases (d.id == id)) [
    | inl hit ↦ let same : d ≡ c = ground arith in rw (hit, ← same, o.0, ==_refl q) o.2
    | inr miss ↦
        let (fn, above, _) = Owns-find (suc q) hi cs ls id c o.2 a.1 (ground arith) in
        let apart : (q == c.ctx) ≡ false = ground arith in
        rw (miss, apart) (o.0, o.1, Owns-erase (suc q) hi cs ls id c o.2 a.1 (ground arith))
  ]
