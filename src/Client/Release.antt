-- ===== src/Client/Release.antt =====
-- The life of a handle of src/client.c: it is freed by the release of its last reference.
use soma_c.Prelude.{
  ℕ, false, true, sym, ◌∙◌, zero, suc, ◌+◌, ◌-◌, ◌≤◌, ◌<◌, ◌^◌, ◌≡◌, ◌≢◌, refl, none, some, arith,
  ◌==◌, Bool,
}
use soma_c.Prelude.State.{M, pure, ◌>>=◌, ◌>>◌, >>-some}
use soma_c.Common.{success, is_success, Ptr}
use soma_c.Client.{
  Client, CollectorHandle, Store, find_handle, put_handle, erase_handle, set_client, decr64, incr64,
  handle_ref_incr, drop_handle, handle_release,
}
use soma_c.Client.HandleList.{
  IsKeyedHandles, find_handle-put_handle, put_handle-put_handle, put_handle_same,
  find_handle-erase_handle,
}

abbrev pub required : Bool → M Store (Unit {0})
required true = pure tt
required false = λ s. none

-- A number of references added, and of releases, one after another; `none` where one faults or fails.
unfoldable pub ref_incr_times : ℕ → Ptr → M Store (Unit {0})
ref_incr_times zero handle = pure tt
ref_incr_times (suc n) handle = do
  ret ← handle_ref_incr handle
  required (is_success ret)
  ref_incr_times n handle

unfoldable pub release_times : ℕ → Ptr → M Store (Unit {0})
release_times zero handle = pure tt
release_times (suc n) handle = do
  ret ← handle_release handle
  required (is_success ret)
  release_times n handle

-- The store after a handle's references were set to `n`.
abbrev with_refs : Store → Ptr → CollectorHandle → ℕ → Store
with_refs s p rh n = record s { handles = put_handle p (record rh { refcount = n }) s.handles }

handle_ref_incr-refcount :
    (p : Ptr) (rh : CollectorHandle) (s : Store)
    → p ≢ 0
    → find_handle p s.handles ≡ some rh
    → rh.refcount + 1 < 2 ^ 64
    → handle_ref_incr p s ≡ some (success, with_refs s p rh (rh.refcount + 1))
unfolding handle_ref_incr
handle_ref_incr-refcount p rh s ne e small =
    let test : (p == 0) ≡ false = ground arith in
    let count : incr64 rh.refcount ≡ rh.refcount + 1 = omega arith in rw (test, e, count)

handle_release-refcount :
    (p : Ptr) (rh : CollectorHandle) (s : Store)
    → p ≢ 0
    → find_handle p s.handles ≡ some rh
    → 1 < rh.refcount
    → rh.refcount < 2 ^ 64
    → handle_release p s ≡ some (success, with_refs s p rh (rh.refcount - 1))
unfolding handle_release
handle_release-refcount p rh s ne e more small =
    let test : (p == 0) ≡ false = ground arith in
    let count : decr64 rh.refcount ≡ rh.refcount - 1 = omega arith in
    let left : (rh.refcount - 1 == 0) ≡ false = ground arith in rw (test, e, count, left)

-- References that do not overflow the counter are added one by one.
ref_incr_times-refcount :
    (n : ℕ) (p : Ptr) (rh : CollectorHandle) (s : Store)
    → p ≢ 0
    → find_handle p s.handles ≡ some rh
    → rh.refcount + n < 2 ^ 64
    → ref_incr_times n p s ≡ some (tt, with_refs s p rh (rh.refcount + n))
unfolding ref_incr_times
ref_incr_times-refcount zero p rh s ne e small = ground (arith, put_handle_same p rh s.handles e)
ref_incr_times-refcount (suc n) p rh s ne e small =
    let new : CollectorHandle = record rh { refcount = rh.refcount + 1 } in
    let next : Store = with_refs s p rh (rh.refcount + 1) in
    ground (
      arith,
      handle_ref_incr-refcount p rh s ne e,
      find_handle-put_handle p new rh s.handles e,
      ref_incr_times-refcount n p new next ne,
      put_handle-put_handle p new (record rh { refcount = rh.refcount + suc n }) s.handles,
    )

-- Releases that leave a reference change the counter alone.
release_times-refcount :
    (n : ℕ) (p : Ptr) (rh : CollectorHandle) (s : Store)
    → p ≢ 0
    → find_handle p s.handles ≡ some rh
    → n < rh.refcount
    → rh.refcount < 2 ^ 64
    → release_times n p s ≡ some (tt, with_refs s p rh (rh.refcount - n))
unfolding release_times
release_times-refcount zero p rh s ne e more small =
    ground (arith, put_handle_same p rh s.handles e)
release_times-refcount (suc n) p rh s ne e more small =
    let new : CollectorHandle = record rh { refcount = rh.refcount - 1 } in
    let next : Store = with_refs s p rh (rh.refcount - 1) in
    ground (
      arith,
      handle_release-refcount p rh s ne e,
      find_handle-put_handle p new rh s.handles e,
      release_times-refcount n p new next ne,
      put_handle-put_handle p new (record rh { refcount = rh.refcount - suc n }) s.handles,
    )

-- n references that are added to a live handle with a reference and released again, without an
-- overflow of the counter, leave the store as it was.
pub ref_incr_times-release_times :
    (n : ℕ) (p : Ptr) (rh : CollectorHandle) (s : Store)
    → p ≢ 0
    → find_handle p s.handles ≡ some rh
    → 1 ≤ rh.refcount
    → rh.refcount + n < 2 ^ 64
    → (ref_incr_times n p >> release_times n p) s ≡ some (tt, s)
ref_incr_times-release_times n p rh s ne e one small =
    let more : CollectorHandle = record rh { refcount = rh.refcount + n } in
    let there = find_handle-put_handle p more rh s.handles e in
    let raised = ref_incr_times-refcount n p rh s ne e small in
    let lowered =
      release_times-refcount n p more (with_refs s p rh (rh.refcount + n)) ne there (omega arith)
        small in
    let back : rh.refcount + n - n ≡ rh.refcount = omega arith in
    >>-some (ref_incr_times n p) (release_times n p) s _ raised
    ∙ lowered
    ∙ rw (back, put_handle-put_handle p more rh s.handles, put_handle_same p rh s.handles e) refl

-- The end of a handle: what is left of the store, and what another release does.
abbrev pub IsFreed : Ptr → Ptr → Client → Store → Store → Type 0
IsFreed p client c s t =
    (find_handle p t.handles ≡ none)
    × (t.clients client
        ≡ some (record c { num_collector_handles = decr64 c.num_collector_handles }))
    × (t.addrs ≡ s.addrs - 1)
    × (handle_release p t ≡ none)

-- The store without the handle.
abbrev dropped : Store → Ptr → CollectorHandle → Client → Store
dropped s p rh c = record s {
  clients =
      set_client s.clients rh.client
        (record c { num_collector_handles = decr64 c.num_collector_handles });
  handles = erase_handle p s.handles;
  addrs = s.addrs - 1;
}

handle_release-dropped :
    (p : Ptr) (rh : CollectorHandle) (c : Client) (s : Store)
    → p ≢ 0
    → find_handle p s.handles ≡ some rh
    → s.clients rh.client ≡ some c
    → rh.refcount ≡ 1
    → handle_release p s ≡ some (success, dropped s p rh c)
unfolding handle_release drop_handle
handle_release-dropped p rh c s ne e owner single =
    let test : (p == 0) ≡ false = ground arith in
    let last : (decr64 rh.refcount == 0) ≡ true = ground arith in
    rw (test, e, last, owner, drop_handle)

-- A handle that is not NULL, alone at its address, of a live client, with one reference, to which n
-- references are added without an overflow, is live through n releases; release n + 1 frees it and
-- its address and takes it off its client's count, and one more release is a use after free.
pub release_last :
    (n : ℕ) (p : Ptr) (rh : CollectorHandle) (c : Client) (s : Store)
    → p ≢ 0
    → find_handle p s.handles ≡ some rh
    → IsKeyedHandles s.handles
    → s.clients rh.client ≡ some c
    → rh.refcount ≡ 1
    → 1 + n < 2 ^ 64
    → (t : Store) × ((ref_incr_times n p >> release_times n p) s ≡ some (tt, s))
      × ((ref_incr_times n p >> (release_times n p >> handle_release p)) s ≡ some (success, t))
      × IsFreed p rh.client c s t
release_last n p rh c s ne e keyed owner single small =
    let test : (p == 0) ≡ false = ground arith in
    let gone = find_handle-erase_handle p s.handles keyed in
    let back = ref_incr_times-release_times n p rh s ne e (omega arith) (omega arith) in
    let last = handle_release-dropped p rh c s ne e owner single in
    let more : CollectorHandle = record rh { refcount = rh.refcount + n } in
    let raised = ref_incr_times-refcount n p rh s ne e (omega arith) in
    let lowered = >>-some (ref_incr_times n p) (release_times n p) s _ raised in
    (
      dropped s p rh c,
      back,
      >>-some (ref_incr_times n p) (release_times n p >> handle_release p) s _ raised
          ∙ >>-some (release_times n p) (handle_release p) _ s (sym lowered ∙ back)
          ∙ last,
      (gone, ground arith, refl, unfold handle_release in ground arith),
    )
