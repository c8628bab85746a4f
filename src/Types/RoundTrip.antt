-- ===== src/Types/RoundTrip.antt =====
-- Every message of src/types.h, from one end to the other.
use soma_c.Prelude.{
  ℕ, ◌≤◌, ◌+◌, ◌≡◌, refl, ◌∙◌, Bool, true, none, some, List, ◌++◌, arith, take, length,
}
use soma_c.Common.{CollectorId}
use soma_c.Types.Layouts.{
  Layout, create_in, create_out, open_in, open_out, close_in, close_out, destroy_in, destroy_out,
  list_in, hello_in, sum_in, sum_out, MessageType, create_collector_in_t, create_collector_out_t,
  open_collector_in_t, open_collector_out_t, close_collector_in_t, close_collector_out_t,
  destroy_collector_in_t, destroy_collector_out_t, list_collectors_in_t, list_collectors_out_t,
  hello_in_t, sum_in_t, sum_out_t, Message,
}
use soma_c.Types.Messages.{gen_message}
use soma_c.Types.Serialize.{hg_proc}
use soma_c.Types.Coders.{layout_coding, gen_message-IsCoder}
use soma_c.Types.ListOut.{list_wire, list_out_encode, list_out_decode, list_out_free}
use soma_c.Foreign.Mercury.{Mercury, encode, decode, free, coded, IsCoder, Code, Coding}

-- A message that can be written and read: the array of a list holds `count` ids or more, and there
-- is memory for them at the other end.
abbrev pub IsWhole : (grants : ℕ → Bool) → (t : MessageType) → Message t → Type 0
IsWhole grants list_collectors_out_t d =
    ((ids : List CollectorId) × (d.ids ≡ some ids) × (d.count ≤ length ids))
    × (grants d.count ≡ true)
IsWhole grants _ d = Unit

-- The message at the other end: of the array of a list, the first `count` ids.
abbrev pub received : (t : MessageType) → Message t → Message t
received list_collectors_out_t d = elim d.ids [
  | none ↦ d
  | some ids ↦ record d { ids = some (take d.count ids) }
]
received create_collector_in_t d = d
received create_collector_out_t d = d
received open_collector_in_t d = d
received open_collector_out_t d = d
received close_collector_in_t d = d
received close_collector_out_t d = d
received destroy_collector_in_t d = d
received destroy_collector_out_t d = d
received list_collectors_in_t d = d
received hello_in_t d = d
received sum_in_t d = d
received sum_out_t d = d

module _ {W : Type 0} where
  -- A function that writes `a` as `wire`, reads it back as `b` with `blocks` blocks, and frees these.
  pub record Travels {A : Type 0} (f : A → Code W A) (a b : A) : Type 0 where
    pub wire : List W
    pub blocks : ℕ
    pub writes :
        (units : List W) (n : ℕ)
        → f a (record { op = encode; units = units; blocks = n })
          ≡ coded a (record { op = encode; units = units ++ wire; blocks = n })
    pub reads :
        (junk : A) (rest : List W) (n : ℕ)
        → f junk (record { op = decode; units = wire ++ rest; blocks = n })
          ≡ coded b (record { op = decode; units = rest; blocks = n + blocks })
    pub frees :
        (units : List W) (n : ℕ)
        → (c : A) × (f b (record { op = free; units = units; blocks = n + blocks })
            ≡ coded c (record { op = free; units = units; blocks = n }))

module _ {W : Type 0} ⦃m : Mercury W⦄ where
  gen_message-Travels : {R : Type 0} (l : Layout R) (d : R) → Travels {W = W} (gen_message l) d d
  gen_message-Travels {R} l d =
      let made : IsCoder (gen_message l) (layout_coding {W = W} l) = gen_message-IsCoder l in
      let c : Coding W R = layout_coding l in
      record {
        wire = c.wire d;
        blocks = c.owned d;
        writes = λ units n. made.encodes d (record { op = encode; units = units; blocks = n }) refl;
        reads = λ junk rest n.
            made.decodes junk d rest (record { op = decode; units = c.wire d ++ rest; blocks = n })
              refl refl;
        frees = λ units n. (
          c.freed d,
          ground (
            arith,
            made.frees d (record { op = free; units = units; blocks = n + c.owned d }) refl,
          ),
        );
      }

  -- Whatever was written or read before: a message, whole if it is a list, is written behind what was
  -- written; from there it is read back into any data, a list with the first `count` ids of its array,
  -- and what follows it is left to be read; and freeing what was read leaves as many blocks as before.
  pub hg_proc-Travels :
      (grants : ℕ → Bool) (t : MessageType) (d : Message t)
      → IsWhole grants t d
      → Travels {W = W} (hg_proc grants t) d (received t d)
  unfolding hg_proc
  hg_proc-Travels grants create_collector_in_t d h = gen_message-Travels create_in d
  hg_proc-Travels grants create_collector_out_t d h = gen_message-Travels create_out d
  hg_proc-Travels grants open_collector_in_t d h = gen_message-Travels open_in d
  hg_proc-Travels grants open_collector_out_t d h = gen_message-Travels open_out d
  hg_proc-Travels grants close_collector_in_t d h = gen_message-Travels close_in d
  hg_proc-Travels grants close_collector_out_t d h = gen_message-Travels close_out d
  hg_proc-Travels grants destroy_collector_in_t d h = gen_message-Travels destroy_in d
  hg_proc-Travels grants destroy_collector_out_t d h = gen_message-Travels destroy_out d
  hg_proc-Travels grants list_collectors_in_t d h = gen_message-Travels list_in d
  hg_proc-Travels grants hello_in_t d h = gen_message-Travels hello_in d
  hg_proc-Travels grants sum_in_t d h = gen_message-Travels sum_in d
  hg_proc-Travels grants sum_out_t d h = gen_message-Travels sum_out d
  hg_proc-Travels grants list_collectors_out_t d ((ids, held, fits), room) = record {
    wire = list_wire d ids;
    blocks = 1;
    writes = λ units n.
        list_out_encode grants d ids (record { op = encode; units = units; blocks = n }) refl held
          fits;
    reads = λ junk rest n. rw held (
        list_out_decode grants junk d ids rest
          (record { op = decode; units = list_wire d ids ++ rest; blocks = n }) refl fits room
          refl);
    frees = λ units n. (
      record d { ids = some (take d.count ids) },
      rw held (
          list_out_free grants (record d { ids = some (take d.count ids) }) (take d.count ids)
            (record { op = free; units = units; blocks = n + 1 }) refl refl
          ∙ ground arith),
    );
  }
