-- ===== src/Examples/Client/Total.antt =====
-- src/examples/client.c against any other end.
use soma_c.Prelude.{
  ℕ, suc, ◌≡◌, ◌∙◌, if◌then◌else◌, ◌≢◌, refl, String, Bool, true, false, none, some, ◌==◌, arith,
  List, [], ◌∷◌, Bool-cases, Option-cases, inl, inr, ==_iff, ==_refl,
}
use soma_c.Prelude.Int.{ℤ, pos}
use soma_c.Common.{Ptr, is_success}
use soma_c.Common.IdText.{collector_id_from_string}
use soma_c.Foreign.Names.{Names}
use soma_c.Types.{SumIn, SumOut}
use soma_c.Types.Layouts.{sum_in_t, sum_out_t}
use soma_c.Stub.{Exchange, Target, Remote, absent, moves}
use soma_c.Client.{Client, CollectorHandle, find_handle, handle_create}
use soma_c.Client.Rpc.{say_hello, sum_call, compute_sum, has_output, client-moves}
use soma_c.Client.HandleList.{IsKeyedHandles}
use soma_c.Client.Lifecycle.{client_init, is_fault}
use soma_c.Examples.Process.{Process, uint16, ◌>>=◌, ◌>>◌, or_fatal, pure, on_store, on_remote}
use soma_c.Examples.Client.{Libraries, deref, client_run, client_main}
use soma_c.Examples.Client.Run.{session, with_handle}

-- soma_compute_sum writes the sum when it succeeds.
sum_call-written :
    (e : Exchange SumOut) (target : Target) (pid : ℕ) (input : SumIn)
    → is_success (sum_call e target pid input).ret ≡ true
    → (z : ℤ) × ((sum_call e target pid input).written ≡ some z)
unfolding sum_call
sum_call-written e target pid input good = elim (Option-cases e.output) [
  | inl lost ↦ ground arith
  | inr (out, came) ↦ (out.result, ground arith)
]

-- A call of soma_sum whose RPC handle is made gets its output.
abbrev pub AnswersSums : {S : Type 0} → Remote S → Type 0
AnswersSums {S} net =
    (target : Target) (pid : ℕ) (input : SumIn) (s : S)
    → let x = (net.ask (sum_in_t, some sum_out_t) target pid input s).0 in
      (if x.create_ok then has_output x else true) ≡ true

module _ {S : Type 0} (net : Remote S) (c : Client) (rh : CollectorHandle) (x y : ℤ) (s : S) where
  compute_sum-written :
      is_success (compute_sum net c rh x y s).0.ret ≡ true
      → (z : ℤ) × ((compute_sum net c rh x y s).0.written ≡ some z)
  unfolding compute_sum
  compute_sum-written good =
      let input : SumIn = record { collector_id = rh.collector_id; x = x; y = y } in
      let target : Target = record { mid = c.mid; address = rh.addr; rpc_id = c.sum_id } in
      let e = (net.ask (sum_in_t, some sum_out_t) target rh.provider_id input s).0 in
      sum_call-written e target rh.provider_id input good

  compute_sum-absent : AnswersSums net → moves absent (compute_sum net c rh x y s).0.calls ≡ absent
  compute_sum-absent answers =
      let input : SumIn = record { collector_id = rh.collector_id; x = x; y = y } in
      let target : Target = record { mid = c.mid; address = rh.addr; rpc_id = c.sum_id } in
      let e = (net.ask (sum_in_t, some sum_out_t) target rh.provider_id input s).0 in
      let answer = answers target rh.provider_id input s in
      let moved = (client-moves net c rh x y s).1 in
      moved ∙ elim (Bool-cases e.create_ok) [
        | inr failed ↦ rw failed refl
        | inl made ↦ rw made (rw (rw made at answer) refl)
      ]

module _ {I S : Type 0} where
  last_runs : (b : Bool) (q : Process I S) → is_fault ((or_fatal b >> pure (pos 0)) q) ≡ false
  last_runs true q = refl
  last_runs false q = refl

module _ {I S : Type 0} ⦃names : Names I⦄ where
  at_hand_runs :
      (libs : Libraries) (net : Remote S) (mid addr copy : Ptr) (address id text : String)
      (p : Process I S)
      → AnswersSums net
      → (libs.strlen text == 36) ≡ true
      → libs.mid ≡ some mid
      → libs.lookup address ≡ some addr
      → libs.client_calloc_ok ≡ true
      → libs.handle_calloc_ok ≡ true
      → libs.dup addr ≡ some copy
      → p.store.next ≢ 0
      → IsKeyedHandles p.store.handles
      → find_handle (suc p.store.next) p.store.handles ≡ none
      → is_fault (client_run libs net address id text p) ≡ false
  unfolding client_run client_init
  at_hand_runs libs net mid addr copy address id text p answers long inited looked calloc1 calloc2
        copied there keyed new =
      let pid = uint16 (libs.atoi id) in
      let cid = collector_id_from_string libs.uuid text libs.junk in
      let (s2, s3, s4, made, found, owner, held, released, ended, balanced) =
        session mid addr copy pid cid p.names p.store there keyed new in
      let rh : CollectorHandle = record {
        client = p.store.next;
        addr = copy;
        provider_id = pid;
        refcount = 1;
        collector_id = cid;
      } in
      let c = with_handle mid p.names in
      let (x, t) = say_hello net c rh p.remote in
      let (y, u) = compute_sum net c rh (pos 45) (pos 23) t in
      let moved1 = (client-moves net c rh (pos 45) (pos 23) p.remote).0 in
      let moved2 = compute_sum-absent net c rh (pos 45) (pos 23) t answers in
      rw (long, inited, looked, calloc1, calloc2, copied)
        (rw (made, ◌>>=◌, on_store)
          (rw (found, owner, ◌>>=◌, deref)
            (rw (moved1, ◌>>=◌, on_remote)
              (elim (Bool-cases (is_success x.ret)) [
                | inr lost ↦ rw lost refl
                | inl hello ↦ rw hello (
                    rw (moved2, ◌>>=◌, on_remote)
                      (elim (Bool-cases (is_success y.ret)) [
                        | inr refused ↦ rw refused refl
                        | inl good ↦
                            let (z, wrote) =
                              compute_sum-written net c rh (pos 45) (pos 23) t good in
                            rw (good, wrote)
                              (rw (released, ◌>>=◌, on_store)
                                (rw (ended, ◌>>=◌, on_store) (last_runs libs.addr_free_ok _)))
                      ]))
              ]))))

  -- The example client, in a process whose next address is neither NULL nor a handle's, where a call of
  -- soma_sum whose RPC handle is made gets its output, comes to an end without undefined behaviour,
  -- whatever its arguments are and whatever else Margo, the memory, libuuid and the other end do.
  pub client_main-runs :
      (libs : Libraries) (net : Remote S) (args : List String) (p : Process I S)
      → AnswersSums net
      → p.store.next ≢ 0
      → IsKeyedHandles p.store.handles
      → find_handle (suc p.store.next) p.store.handles ≡ none
      → is_fault (client_main libs net args p) ≡ false
  unfolding client_main client_run client_init handle_create
  client_main-runs libs net [] p answers there keyed new = refl
  client_main-runs libs net (a ∷ []) p answers there keyed new = refl
  client_main-runs libs net (a ∷ b ∷ []) p answers there keyed new = refl
  client_main-runs libs net (a ∷ b ∷ c ∷ []) p answers there keyed new = refl
  client_main-runs libs net (a ∷ b ∷ c ∷ d ∷ e ∷ l) p answers there keyed new = refl
  client_main-runs libs net (name ∷ address ∷ id ∷ text ∷ []) p answers there keyed new =
      let live : (p.store.next == 0) ≡ false = ground (arith, ==_iff p.store.next 0, there) in
      elim (Bool-cases (libs.strlen text == 36)) [
        | inr short ↦ rw short refl
        | inl long ↦ elim (Option-cases libs.mid) [
          | inl aborts ↦ rw (long, aborts) refl
          | inr (mid, inited) ↦ elim (Option-cases (libs.lookup address)) [
            | inl unknown ↦ rw (long, inited, unknown) refl
            | inr (addr, looked) ↦ elim (Bool-cases libs.client_calloc_ok) [
              | inr full ↦ rw (long, inited, looked, full) refl
              | inl calloc1 ↦ elim (Bool-cases libs.handle_calloc_ok) [
                | inr full ↦
                    rw (long, inited, looked, calloc1, full) (rw (live, ◌>>=◌, on_store) refl)
                | inl calloc2 ↦ elim (Option-cases (libs.dup addr)) [
                  | inl failed ↦
                      rw (long, inited, looked, calloc1, calloc2, failed)
                        (rw (live, ==_refl p.store.next, ◌>>=◌, on_store) refl)
                  | inr (copy, copied) ↦
                      at_hand_runs libs net mid addr copy address id text p answers long inited
                        looked calloc1 calloc2 copied there keyed new
                ]
              ]
            ]
          ]
        ]
      ]
