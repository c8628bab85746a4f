-- ===== src/Client/Counting.antt =====
-- The counters of src/client.c: a client's num_collector_handles, the references of a handle, and
-- the addresses that are held.
use soma_c.Prelude.{
  ℕ, suc, ◌+◌, ◌%◌, ◌^◌, ◌≤◌, ◌<◌, ◌≡◌, refl, Bool, Option, none, some, List, [], ◌∷◌, arith, ◌==◌,
  if◌then◌else◌, length, Option-cases, inl, inr,
}
use soma_c.Common.{CollectorId, Ptr, ReturnCode}
use soma_c.Client.{
  Client, CollectorHandle, Store, find_handle, put_handle, erase_handle, incr64, decr64,
  handle_create, handle_ref_incr, drop_handle, handle_release, HandleOp, create, ref_incr, release,
  step,
}

-- The live handles of the client at an address.
abbrev pub count_of : Ptr → List (Ptr × CollectorHandle) → ℕ
count_of p [] = 0
count_of p ((q, rh) ∷ hs) = (if rh.client == p then 1 else 0) + count_of p hs

-- A live handle has a reference.
abbrev pub AreReferenced : List (Ptr × CollectorHandle) → Type 0
AreReferenced [] = Unit
AreReferenced ((q, rh) ∷ hs) = (1 ≤ rh.refcount) × AreReferenced hs

-- Each client counts its live handles (as a uint64_t), each live handle has a reference, and each
-- holds one address.
pub record IsCounting (s : Store) : Type 0 where
  pub counted :
      (p : Ptr) (c : Client)
      → s.clients p ≡ some c
      → c.num_collector_handles ≡ count_of p s.handles % 2 ^ 64
  pub referenced : AreReferenced s.handles
  pub addresses : s.addrs ≡ length s.handles

count_of-put_handle :
    (p q : Ptr) (new rh : CollectorHandle) (hs : List (Ptr × CollectorHandle))
    → find_handle p hs ≡ some rh
    → new.client ≡ rh.client
    → count_of q (put_handle p new hs) ≡ count_of q hs
count_of-put_handle p q new rh [] e same = refl
count_of-put_handle p q new rh ((k, d) ∷ hs) e same =
    ground (arith, count_of-put_handle p q new rh hs)

pub count_of-erase_handle :
    (p q : Ptr) (rh : CollectorHandle) (hs : List (Ptr × CollectorHandle))
    → find_handle p hs ≡ some rh
    → count_of q hs ≡ count_of q (erase_handle p hs) + (if rh.client == q then 1 else 0)
count_of-erase_handle p q rh [] e = cc
count_of-erase_handle p q rh ((k, d) ∷ hs) e = ground (arith, count_of-erase_handle p q rh hs)

put_handle-AreReferenced :
    (p : Ptr) (new : CollectorHandle) (hs : List (Ptr × CollectorHandle))
    → 1 ≤ new.refcount
    → AreReferenced hs
    → AreReferenced (put_handle p new hs)
put_handle-AreReferenced p new [] one v = tt
put_handle-AreReferenced p new ((k, d) ∷ hs) one v =
    ground (arith, put_handle-AreReferenced p new hs one v.1)

erase_handle-AreReferenced :
    (p : Ptr) (hs : List (Ptr × CollectorHandle))
    → AreReferenced hs
    → AreReferenced (erase_handle p hs)
erase_handle-AreReferenced p [] v = tt
erase_handle-AreReferenced p ((k, d) ∷ hs) v = ground (arith, erase_handle-AreReferenced p hs v.1)

length-put_handle :
    (p : Ptr) (new : CollectorHandle) (hs : List (Ptr × CollectorHandle))
    → length (put_handle p new hs) ≡ length hs
length-put_handle p new [] = refl
length-put_handle p new ((k, d) ∷ hs) = ground (arith, length-put_handle p new hs)

length-erase_handle :
    (p : Ptr) (rh : CollectorHandle) (hs : List (Ptr × CollectorHandle))
    → find_handle p hs ≡ some rh
    → length hs ≡ suc (length (erase_handle p hs))
length-erase_handle p rh [] e = cc
length-erase_handle p rh ((k, d) ∷ hs) e = ground (arith, length-erase_handle p rh hs)

handle_create-IsCounting :
    (s t : Store) (client addr : Ptr) (provider_id : ℕ) (id : CollectorId) (calloc_ok : Bool)
    (dup : Option Ptr) (r : ReturnCode × Option Ptr)
    → handle_create client addr provider_id id calloc_ok dup s ≡ some (r, t)
    → IsCounting s
    → IsCounting t
unfolding handle_create
handle_create-IsCounting s t client addr provider_id id calloc_ok dup r e v =
    elim (Option-cases (s.clients client)) [
      | inl gone ↦ record {
        counted = λ p c at. ground (arith, v.counted p c);
        referenced = ground (arith, v.referenced);
        addresses = ground (arith, v.addresses);
      }
      | inr (d, here) ↦ record {
        counted = λ p c at. ground (arith, v.counted p c, v.counted client d here);
        referenced = ground (arith, v.referenced);
        addresses = ground (arith, v.addresses);
      }
    ]

handle_ref_incr-IsCounting :
    (s t : Store) (handle : Ptr) (rh : CollectorHandle) (ret : ReturnCode)
    → find_handle handle s.handles ≡ some rh
    → rh.refcount + 1 < 2 ^ 64
    → handle_ref_incr handle s ≡ some (ret, t)
    → IsCounting s
    → IsCounting t
unfolding handle_ref_incr
handle_ref_incr-IsCounting s t handle rh ret found small e v =
    let new : CollectorHandle = record rh { refcount = incr64 rh.refcount } in
    record {
      counted = λ p c at.
          ground (arith, v.counted p c, count_of-put_handle handle p new rh s.handles found refl);
      referenced = ground (arith, v.referenced, put_handle-AreReferenced handle new s.handles);
      addresses = ground (arith, v.addresses, length-put_handle handle new s.handles);
    }

handle_release-IsCounting :
    (s t : Store) (handle : Ptr) (rh : CollectorHandle) (ret : ReturnCode)
    → find_handle handle s.handles ≡ some rh
    → handle_release handle s ≡ some (ret, t)
    → IsCounting s
    → IsCounting t
unfolding handle_release drop_handle
handle_release-IsCounting s t handle rh ret found e v =
    let less : CollectorHandle = record rh { refcount = decr64 rh.refcount } in
    elim (Option-cases (s.clients rh.client)) [
      | inl gone ↦ record {
        counted = λ p c at.
            ground
              (arith, v.counted p c, count_of-put_handle handle p less rh s.handles found refl);
        referenced = ground (arith, v.referenced, put_handle-AreReferenced handle less s.handles);
        addresses = ground (arith, v.addresses, length-put_handle handle less s.handles);
      }
      | inr (d, here) ↦ record {
        counted = λ p c at. ground (
          arith,
          v.counted p c,
          v.counted rh.client d here,
          count_of-put_handle handle p less rh s.handles found refl,
          count_of-erase_handle handle p rh s.handles found,
        );
        referenced = ground (
          arith,
          v.referenced,
          put_handle-AreReferenced handle less s.handles,
          erase_handle-AreReferenced handle s.handles,
        );
        addresses = ground (
          arith,
          v.addresses,
          length-put_handle handle less s.handles,
          length-erase_handle handle rh s.handles found,
        );
      }
    ]

-- A reference that is added does not overflow the counter.
abbrev pub HasRoom : HandleOp → Store → Type 0
HasRoom (create client addr provider_id id calloc_ok dup) s = Unit
HasRoom (ref_incr handle) s = elim (find_handle handle s.handles) [
  | none ↦ Unit
  | some rh ↦ rh.refcount + 1 < 2 ^ 64
]
HasRoom (release handle) s = Unit

-- Every call that does not fault keeps the counters right, if no reference overflows.
pub step-IsCounting :
    (op : HandleOp) (s t : Store) → step op s ≡ some t → HasRoom op s → IsCounting s → IsCounting t
unfolding step
step-IsCounting (create client addr provider_id id calloc_ok dup) s t e room v =
    elim (Option-cases (handle_create client addr provider_id id calloc_ok dup s)) [
      | inl bad ↦ cc
      | inr ((r, u), ran) ↦
          let same : u ≡ t = ground arith in
          rw (← same)
            (handle_create-IsCounting s u client addr provider_id id calloc_ok dup r ran v)
    ]
step-IsCounting (ref_incr handle) s t e room v = elim (Option-cases (handle_ref_incr handle s)) [
  | inl bad ↦ ground arith
  | inr ((r, u), ran) ↦
      let same : u ≡ t = ground arith in
      elim (Option-cases (find_handle handle s.handles)) [
        | inl gone ↦
            let still : u ≡ s = unfold handle_ref_incr in ground arith in rw (← same, still) v
        | inr (rh, found) ↦
            rw (← same)
              (handle_ref_incr-IsCounting s u handle rh r found (rw (found, HasRoom) at room) ran v)
      ]
]
step-IsCounting (release handle) s t e room v = elim (Option-cases (handle_release handle s)) [
  | inl bad ↦ ground arith
  | inr ((r, u), ran) ↦
      let same : u ≡ t = ground arith in
      elim (Option-cases (find_handle handle s.handles)) [
        | inl gone ↦
            let still : u ≡ s = unfold handle_release in ground arith in rw (← same, still) v
        | inr (rh, found) ↦ rw (← same) (handle_release-IsCounting s u handle rh r found ran v)
      ]
]
