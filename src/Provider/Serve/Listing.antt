-- ===== src/Provider/Serve/Listing.antt =====
-- soma_list_collectors_ult: the array that it fills, and the part of it that is sent.
use soma_c.Prelude.{
  ℕ, zero, suc, ◌+◌, ◌≤◌, ◌<◌, ◌≡◌, refl, ap, true, some, List, [], ◌∷◌, ◌++◌, map, arith,
  append_assoc, ltb, if◌then◌else◌, take, set, length, replicate, length-append, length-map,
}
use soma_c.Common.{success, CollectorId}
use soma_c.Types.{ListCollectorsIn, ListCollectorsOut}
use soma_c.Foreign.UtHash.{UtHash}
use soma_c.Provider.State.{Collector}
use soma_c.Provider.Server.{Server}
use soma_c.Provider.Collectors.{check_token}
use soma_c.Provider.Collectors.Items.{IsWellFormed, collectors_of}
use soma_c.Provider.Handlers.{uint_mod, incr_uint, list_body, fill_ids, fill_array}

set-middle :
    {A : Type 0} (xs ys : List A) (a b : A) → set (xs ++ a ∷ ys) (length xs) b ≡ xs ++ b ∷ ys
set-middle [] ys a b = refl
set-middle (x ∷ xs) ys a b = ap (λ l. x ∷ l) (set-middle xs ys a b)

pub take-length-le : {A : Type 0} (n : ℕ) (xs : List A) → length xs ≤ n → take n xs ≡ xs
take-length-le zero [] h = refl
take-length-le zero (x ∷ xs) h = absurd (omega arith)
take-length-le (suc n) [] h = refl
take-length-le (suc n) (x ∷ xs) h = ap (λ l. x ∷ l) (take-length-le n xs (omega arith))

-- The smaller of the length and a bound takes what the bound takes.
pub take-min :
    {A : Type 0} (m : ℕ) (xs : List A)
    → take (if ltb (length xs) m then length xs else m) xs ≡ take m xs
take-min m xs = ground (arith, take-length-le m xs, take-length-le (length xs) xs)

module _ {W : Type 0} where
  abbrev pub id_list : List (Collector W) → List CollectorId
  id_list = map λ c. c.id

  fill_ids-append :
      (done : List CollectorId) (rs : List (Collector W))
      → length done + length rs < uint_mod
      → fill_ids (done ++ replicate (length rs) 0) (length done) rs ≡ some (done ++ id_list rs)
  unfolding fill_ids
  fill_ids-append done [] small = refl
  fill_ids-append done (r ∷ rs) small =
      let index : incr_uint (length done) ≡ suc (length done) = omega arith in
      ground (
        arith,
        index,
        set-middle done (replicate (length rs) 0) 0 r.id,
        length-append {0} done (replicate (suc (length rs)) 0),
        length-append {0} done (r.id ∷ []),
        append_assoc done (r.id ∷ []) (replicate (length rs) 0),
        append_assoc done (r.id ∷ []) (id_list rs),
        fill_ids-append (done ++ r.id ∷ []) rs,
      )

module _ {W T : Type 0} ⦃h : UtHash W T⦄ where
  -- An accepted request for a list of fewer than 2^32 collectors, when memory is there: the array holds the ids of all
  -- collectors in the order of their creation and is not overrun; its first `count` items are the
  -- first `max_ids` ids, or all of them; the server stays as it was.
  pub list_body-id_list :
      (out : ListCollectorsOut) (i : ListCollectorsIn) (s : Server W T)
      → IsWellFormed s.provider
      → length (collectors_of s.provider) < uint_mod
      → check_token s.provider i.token ≡ some true
      → (o : ListCollectorsOut) × (list_body true out (some i) s ≡ some (o, s))
        × (o.ret ≡ success)
        × (o.ids ≡ some (id_list (collectors_of s.provider)))
        × (o.count ≤ i.max_ids)
        × (o.count ≤ length (collectors_of s.provider))
        × (take o.count (id_list (collectors_of s.provider))
            ≡ take i.max_ids (id_list (collectors_of s.provider)))
  unfolding list_body fill_array
  list_body-id_list out i s v small ok =
      let cs = collectors_of s.provider in
      let counted : s.provider.num_collectors ≡ length cs = omega (arith, v.counted) in
      let n = if ltb (length cs) i.max_ids then length cs else i.max_ids in
      (
        record { ret = success; count = n; ids = some (id_list cs) },
        rw counted (ground (arith, fill_ids-append [] cs)),
        refl,
        refl,
        ground arith,
        ground arith,
        ground (
          arith,
          take-min i.max_ids (id_list cs),
          length-map {0, 0} (λ (c : Collector W). c.id) cs,
        ),
      )
