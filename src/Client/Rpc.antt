-- ===== src/Client/Rpc.antt =====
-- soma_say_hello and soma_compute_sum of src/client.c, on a live handle.
use soma_c.Prelude.{ℕ, ◌≡◌, Bool, true, false, none, some, List, [], ◌∷◌, arith, if◌then◌else◌}
use soma_c.Prelude.Int.{ℤ}
use soma_c.Common.{success, err_from_mercury, is_success}
use soma_c.Types.{HelloIn, SumIn, SumOut}
use soma_c.Types.Layouts.{hello_in_t, sum_in_t, sum_out_t}
use soma_c.Client.{Client, CollectorHandle}
use soma_c.Stub.{
  Exchange, Remote, Target, StubCall, created, forwarded, got_output, freed_output, destroyed,
  Outcome, absent, misused, moves,
}

module _ {S : Type 0} where
  -- soma_say_hello, with the client that the handle points to: there is no output to get.
  unfoldable pub say_hello :
      Remote S → Client → CollectorHandle → S → Outcome HelloIn (Unit {0}) × S
  say_hello net client handle s =
      let input : HelloIn = record { collector_id = handle.collector_id } in
      let target : Target = record {
        mid = client.mid;
        address = handle.addr;
        rpc_id = client.hello_id;
      } in
      let (x, t) = net.ask (hello_in_t, none) target handle.provider_id input s in
      let calls = created target ∷ forwarded handle.provider_id input ∷ destroyed ∷ [] in
      (
        if x.create_ok
            then (if x.forward_ok
                then record { ret = success; written = none; calls = calls }
                else record { ret = err_from_mercury; written = none; calls = calls })
            else record { ret = err_from_mercury; written = none; calls = [] },
        t,
      )

-- The end of soma_compute_sum, with what the exchange gave: each `goto finish` leads to
-- margo_free_output.
unfoldable pub sum_call : Exchange SumOut → Target → ℕ → SumIn → Outcome SumIn ℤ
sum_call x target provider_id input =
    let start = λ (cs : List (StubCall SumIn)). created target ∷ forwarded provider_id input ∷ cs in
    if x.create_ok
    then (if x.forward_ok
        then elim x.output [
          | none ↦ record {
            ret = err_from_mercury;
            written = none;
            calls = start (got_output false ∷ freed_output ∷ destroyed ∷ []);
          }
          | some out ↦ record {
            ret = out.ret;
            written = if is_success out.ret then some out.result else none;
            calls = start (got_output true ∷ freed_output ∷ destroyed ∷ []);
          }
        ]
        else record {
          ret = err_from_mercury;
          written = none;
          calls = start (freed_output ∷ destroyed ∷ []);
        })
    else record { ret = err_from_mercury; written = none; calls = [] }

-- soma_compute_sum, with the client that the handle points to.
unfoldable pub compute_sum :
    {S : Type 0} → Remote S → Client → CollectorHandle → (x y : ℤ) → S → Outcome SumIn ℤ × S
unfolding sum_call
compute_sum net client handle x y s =
    let input : SumIn = record { collector_id = handle.collector_id; x = x; y = y } in
    let target : Target = record {
      mid = client.mid;
      address = handle.addr;
      rpc_id = client.sum_id;
    } in
    let (e, t) = net.ask (sum_in_t, some sum_out_t) target handle.provider_id input s in
    (sum_call e target handle.provider_id input, t)

-- An output was had: neither the forwarding failed, nor the reading of the output.
abbrev pub has_output : {Out : Type 0} → Exchange Out → Bool
has_output x = if x.forward_ok then (elim x.output [ none ↦ false | some out ↦ true ]) else false

pub sum_call-moves :
    (x : Exchange SumOut) (target : Target) (pid : ℕ) (input : SumIn)
    → moves absent (sum_call x target pid input).calls
      ≡ (if x.create_ok then (if has_output x then absent else misused) else absent)
unfolding sum_call
sum_call-moves x target pid input = ground arith

-- Whatever Mercury does, soma_say_hello uses its handle as its state allows and leaves none behind.
-- soma_compute_sum does so exactly when no handle was made or an output was had: otherwise it frees
-- an output that it never got.
pub client-moves :
    {S : Type 0} (net : Remote S) (client : Client) (handle : CollectorHandle) (x y : ℤ) (s : S)
    → let input : SumIn = record { collector_id = handle.collector_id; x = x; y = y } in
      let target : Target = record {
        mid = client.mid;
        address = handle.addr;
        rpc_id = client.sum_id;
      } in
      let e = (net.ask (sum_in_t, some sum_out_t) target handle.provider_id input s).0 in
      (moves absent (say_hello net client handle s).0.calls ≡ absent)
      × (moves absent (compute_sum net client handle x y s).0.calls
          ≡ (if e.create_ok then (if has_output e then absent else misused) else absent))
unfolding say_hello compute_sum
client-moves net client handle x y s = (ground arith, sum_call-moves _ _ _ _)
