-- ===== src/Foreign/UtHash.antt =====
-- src/uthash.h is a copy of a library: its macros, as provider.c uses them on the hash of the
-- collectors, are an interface. A table is known by its items in the order of HASH_ITER.
use soma_c.Prelude.{
  ◌≡◌, refl, Option, none, some, List, [], ◌∷◌, ◌++◌, arith, ◌==◌, if◌then◌else◌, length, suc,
}
use soma_c.Common.{CollectorId}
use soma_c.Provider.State.{Collector}

module _ {W : Type 0} where
  -- The first collector with an id, and the list without it.
  abbrev pub find_id : CollectorId → List (Collector W) → Option (Collector W)
  find_id id [] = none
  find_id id (c ∷ cs) = if c.id == id then some c else find_id id cs

  abbrev pub erase_id : CollectorId → List (Collector W) → List (Collector W)
  erase_id id [] = []
  erase_id id (c ∷ cs) = if c.id == id then cs else c ∷ erase_id id cs

  -- No two collectors of the list have one id.
  abbrev pub IsKeyed : List (Collector W) → Type 0
  IsKeyed [] = Unit
  IsKeyed (c ∷ cs) = (find_id c.id cs ≡ none) × IsKeyed cs

-- HASH_FIND, HASH_ADD, HASH_DEL and HASH_ITER, keyed by the field `id`; a NULL head is `empty`.
-- HASH_ADD wants a key that is not there, and HASH_DEL an item that is.
pub record UtHash (W T : Type 0) : Type 0 where
  pub empty : T
  pub find : T → CollectorId → Option (Collector W)
  pub add : T → Collector W → T
  pub del : T → Collector W → T
  pub items : T → List (Collector W)
  pub items-empty : items empty ≡ []
  pub find-items : (t : T) (id : CollectorId) → find t id ≡ find_id id (items t)
  pub items-add :
      (t : T) (c : Collector W) → find t c.id ≡ none → items (add t c) ≡ items t ++ c ∷ []
  pub items-del :
      (t : T) (c : Collector W) → find t c.id ≡ some c → items (del t c) ≡ erase_id c.id (items t)

module _ {W : Type 0} where
  pub find_id-append :
      (id : CollectorId) (cs : List (Collector W)) (c : Collector W)
      → find_id id (cs ++ c ∷ [])
        ≡ elim (find_id id cs) [ some d ↦ some d | none ↦ if c.id == id then some c else none ]
  find_id-append id [] c = refl
  find_id-append id (d ∷ cs) c = ground (arith, find_id-append id cs c)

  -- A collector that is found has the id that was looked for.
  pub id-find_id :
      (id : CollectorId) (cs : List (Collector W)) (c : Collector W)
      → find_id id cs ≡ some c
      → c.id ≡ id
  id-find_id id [] c h = ground arith
  id-find_id id (d ∷ cs) c h = ground (arith, id-find_id id cs c)

  pub find_id-erase_id :
      (id j : CollectorId) (cs : List (Collector W))
      → IsKeyed cs
      → find_id j (erase_id id cs) ≡ (if j == id then none else find_id j cs)
  find_id-erase_id id j [] k = ground arith
  find_id-erase_id id j (d ∷ cs) k = ground (arith, find_id-erase_id id j cs k.1)

  pub append-IsKeyed :
      (cs : List (Collector W)) (c : Collector W)
      → IsKeyed cs
      → find_id c.id cs ≡ none
      → IsKeyed (cs ++ c ∷ [])
  append-IsKeyed [] c k h = (refl, tt)
  append-IsKeyed (d ∷ cs) c k h =
      (ground (arith, find_id-append d.id cs c), append-IsKeyed cs c k.1 (ground arith))

  pub erase_id-IsKeyed :
      (id : CollectorId) (cs : List (Collector W)) → IsKeyed cs → IsKeyed (erase_id id cs)
  erase_id-IsKeyed id [] k = tt
  erase_id-IsKeyed id (d ∷ cs) k =
      ground (arith, find_id-erase_id id d.id cs k.1, erase_id-IsKeyed id cs k.1)

  pub length-erase_id :
      (id : CollectorId) (cs : List (Collector W)) (c : Collector W)
      → find_id id cs ≡ some c
      → length cs ≡ suc (length (erase_id id cs))
  length-erase_id id [] c h = ground arith
  length-erase_id id (d ∷ cs) c h = ground (arith, length-erase_id id cs c)
