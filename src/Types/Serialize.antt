-- ===== src/Types/Serialize.antt =====
-- src/types.h: hg_proc_list_collectors_out_t, which is written by hand, and the serialization of every
-- message.
use soma_c.Prelude.{
  ℕ, suc, ◌-◌, Bool, none, some, List, ◌++◌, leb, if◌then◌else◌, take, drop, length, replicate,
}
use soma_c.Common.{CollectorId, return_code}
use soma_c.Types.{ListCollectorsOut}
use soma_c.Types.Layouts.{
  create_in, create_out, open_in, open_out, close_in, close_out, destroy_in, destroy_out, list_in,
  hello_in, sum_in, sum_out, code_field, MessageType, create_collector_in_t, create_collector_out_t,
  open_collector_in_t, open_collector_out_t, close_collector_in_t, close_collector_out_t,
  destroy_collector_in_t, destroy_collector_out_t, list_collectors_in_t, list_collectors_out_t,
  hello_in_t, sum_in_t, sum_out_t, Message,
}
use soma_c.Types.Messages.{gen_message}
use soma_c.Foreign.Mercury.{Mercury, encode, decode, free, coded, fault, Code, ◌>>=◌, pure}

module _ {W : Type 0} ⦃m : Mercury W⦄ where
  -- The `memcpy` of the first `count` ids of an array, which overruns it if it has fewer.
  unfoldable pub copy_array : ℕ → List CollectorId → Code W (List CollectorId)
  copy_array count ids =
      if leb count (length ids)
      then (do copied ← m.memcpy (take count ids); pure (copied ++ drop count ids))
      else λ p. fault

  -- hg_proc_list_collectors_out_t; `grants` says for how many ids calloc gives an array.
  unfoldable pub hg_proc_list_collectors_out :
      (grants : ℕ → Bool) → ListCollectorsOut → Code W ListCollectorsOut
  hg_proc_list_collectors_out grants out = do
    ret ← m.int32 (code_field out.ret)
    count ← m.size out.count
    op ← λ p. coded p.op p
    ids ← elim op [
      | decode ↦
          if grants count
          then (do
            _ ← λ p. coded tt (record p { blocks = suc p.blocks })
            ids ← copy_array count (replicate count 0)
            pure (some ids))
          else pure none
      | encode ↦ elim out.ids [
        | none ↦ pure none
        | some ids ↦ do copied ← copy_array count ids; pure (some copied)
      ]
      | free ↦ elim out.ids [
        | none ↦ pure none
        | some ids ↦ λ p. coded (some ids) (record p { blocks = p.blocks - 1 })
      ]
    ]
    elim (return_code ret) [
      | none ↦ λ p. fault
      | some c ↦ pure (record { ret = c; count = count; ids = ids })
    ]

  -- The function of each message type.
  unfoldable pub hg_proc : (grants : ℕ → Bool) → (t : MessageType) → Message t → Code W (Message t)
  hg_proc grants create_collector_in_t d = gen_message create_in d
  hg_proc grants create_collector_out_t d = gen_message create_out d
  hg_proc grants open_collector_in_t d = gen_message open_in d
  hg_proc grants open_collector_out_t d = gen_message open_out d
  hg_proc grants close_collector_in_t d = gen_message close_in d
  hg_proc grants close_collector_out_t d = gen_message close_out d
  hg_proc grants destroy_collector_in_t d = gen_message destroy_in d
  hg_proc grants destroy_collector_out_t d = gen_message destroy_out d
  hg_proc grants list_collectors_in_t d = gen_message list_in d
  hg_proc grants list_collectors_out_t d = hg_proc_list_collectors_out grants d
  hg_proc grants hello_in_t d = gen_message hello_in d
  hg_proc grants sum_in_t d = gen_message sum_in d
  hg_proc grants sum_out_t d = gen_message sum_out d
