-- ===== src/Types/Transmit.antt =====
-- A message of src/types.h from one end to the other: what margo_provider_forward or margo_respond
-- writes is what margo_get_input or margo_get_output reads.
use soma_c.Prelude.{
  ℕ, ◌≤◌, ◌<◌, ◌≡◌, refl, ap, sym, ◌∙◌, Bool, true, Option, none, some, List, [], ◌++◌, append-nil,
  arith, take, length,
}
use soma_c.Common.{CollectorId}
use soma_c.Types.{ListCollectorsOut}
use soma_c.Types.Layouts.{MessageType, list_collectors_out_t, Message}
use soma_c.Types.Serialize.{hg_proc}
use soma_c.Types.ListOut.{null_wire, null_encode, null_decode}
use soma_c.Types.RoundTrip.{IsWhole, received, hg_proc-Travels}
use soma_c.Foreign.Mercury.{Mercury, Proc, encode, decode, Coded, coded, failed, fault}

abbrev pub writing : {W : Type 0} → Proc W
writing = record { op = encode; units = []; blocks = 0 }

abbrev pub reading : {W : Type 0} → List W → Proc W
reading units = record { op = decode; units = units; blocks = 0 }

-- What is read, if it could be.
abbrev pub data_of : {W A : Type 0} → Coded W A → Option A
data_of (coded a p) = some a
data_of (failed p) = none
data_of fault = none

module _ (W : Type 0) ⦃m : Mercury W⦄ where
  -- `grants` is the memory of the reader, and `junk` what its structure holds before.
  unfoldable pub transmit :
      (grants : ℕ → Bool) → (t : MessageType) → (d junk : Message t) → Option (Message t)
  transmit grants t d junk = elim (hg_proc {W = W} grants t d writing) [
    | coded e p ↦ data_of (hg_proc {W = W} grants t junk (reading p.units))
    | failed p ↦ none
    | fault ↦ none
  ]

  -- A message arrives, a list with the first `count` ids of its array.
  pub transmit-received :
      (grants : ℕ → Bool) (t : MessageType) (d junk : Message t)
      → IsWhole grants t d
      → transmit grants t d junk ≡ some (received t d)
  unfolding transmit
  transmit-received grants t d junk h =
      let travels = hg_proc-Travels {W = W} grants t d h in
      let units : List W = travels.wire ++ [] in
      let read : hg_proc {W = W} grants t junk (reading travels.wire)
          ≡ coded (received t d) (record { op = decode; units = []; blocks = travels.blocks }) =
        ap (λ (u : List W). hg_proc {W = W} grants t junk (reading u))
          (sym (append-nil travels.wire))
        ∙ travels.reads junk [] 0
        ∙ ground arith in
      rw (travels.writes [] 0, transmit, read) refl

  pub transmit_array :
      (grants : ℕ → Bool) (out junk : ListCollectorsOut) (ids : List CollectorId)
      → out.ids ≡ some ids
      → out.count ≤ length ids
      → grants out.count ≡ true
      → transmit grants list_collectors_out_t out junk
        ≡ some (record out { ids = some (take out.count ids) })
  transmit_array grants out junk ids held fits room =
      transmit-received grants list_collectors_out_t out junk ((ids, held, fits), room)
      ∙ rw held refl

  -- A list of NULL is written, but is not read, if its `count` is not 0 and there is memory for that
  -- many ids; the array for them is left.
  pub null_travels :
      (grants : ℕ → Bool) (out junk : ListCollectorsOut)
      → out.ids ≡ none
      → 0 < out.count
      → grants out.count ≡ true
      → (units : List W) × (hg_proc grants list_collectors_out_t out writing
          ≡ coded out (record writing { units = units }))
        × (hg_proc grants list_collectors_out_t junk (reading units)
            ≡ failed (record (reading []) { blocks = 1 }))
  unfolding hg_proc
  null_travels grants out junk null more room = (
    null_wire out,
    null_encode grants out writing refl null,
    null_decode grants junk out (reading (null_wire out)) refl more room refl,
  )

  pub transmit_null :
      (grants : ℕ → Bool) (out junk : ListCollectorsOut)
      → out.ids ≡ none
      → 0 < out.count
      → grants out.count ≡ true
      → transmit grants list_collectors_out_t out junk ≡ none
  unfolding transmit
  transmit_null grants out junk null more room =
      let (units, wrote, lost) = null_travels grants out junk null more room in
      rw (wrote, transmit, lost) refl
