-- ===== src/Tests/Wire.antt =====
-- Mercury's serialization, instantiated: a buffer is a list of the values that were written.
use soma_c.Prelude.{
  ℕ, ◌+◌, ◌-◌, ◌<◌, ◌≡◌, refl, String, Option, none, some, List, [], ◌∷◌, ◌++◌, arith, length,
}
use soma_c.Prelude.Int.{ℤ, pos, negsuc}
use soma_c.Common.{CollectorId, err_other}
use soma_c.Types.Fields.{FieldType, Field, Fields}
use soma_c.Types.Layouts.{
  MessageType, create_collector_in_t, create_collector_out_t, open_collector_in_t,
  open_collector_out_t, close_collector_in_t, close_collector_out_t, destroy_collector_in_t,
  destroy_collector_out_t, list_collectors_in_t, list_collectors_out_t, hello_in_t, sum_in_t,
  sum_out_t, Message,
}
use soma_c.Foreign.Mercury.{
  Mercury, Proc, encode, decode, free, Coded, coded, failed, Code, ◌>>=◌, pure, IsCoder,
  string_blocks, wires,
}

pub data Item : Type 0 where
  text : Option String → Item
  number : ℤ → Item
  size : ℕ → Item
  id : CollectorId → Item

abbrev as_text : Item → Option (Option String)
as_text (text s) = some s
as_text _ = none

abbrev as_number : Item → Option ℤ
as_number (number z) = some z
as_number _ = none

abbrev as_size : Item → Option ℕ
as_size (size n) = some n
as_size _ = none

abbrev item_value :
    {A : Type 0} → (Item → Option A) → (A → ℕ) → List Item → Proc Item → Coded Item A
item_value unwrap owned [] p = failed p
item_value unwrap owned (x ∷ xs) p = elim (unwrap x) [
  | none ↦ failed p
  | some b ↦ coded b (record p { units = xs; blocks = p.blocks + owned b })
]

abbrev item_proc : {A : Type 0} → (A → Item) → (Item → Option A) → (A → ℕ) → A → Code Item A
item_proc wrap unwrap owned a p = elim p.op [
  | encode ↦ coded a (record p { units = p.units ++ wrap a ∷ [] })
  | decode ↦ item_value unwrap owned p.units p
  | free ↦ coded a (record p { blocks = p.blocks - owned a })
]

pub item_proc-IsCoder :
    {A : Type 0} (wrap : A → Item) (unwrap : Item → Option A) (owned : A → ℕ)
    → ((a : A) → unwrap (wrap a) ≡ some a)
    → IsCoder
        (item_proc wrap unwrap owned)
        (record { wire = λ a. wrap a ∷ []; owned = owned; freed = λ a. a })
item_proc-IsCoder wrap unwrap owned back = record {
  encodes = λ a p e. rw e refl;
  decodes = λ junk a rest p e u. rw (e, u, back a) refl;
  frees = λ a p e. rw e refl;
}

-- As many ids as the array has, if they are there.
abbrev read_ids : List CollectorId → List Item → Option (List CollectorId × List Item)
read_ids [] items = some ([], items)
read_ids (j ∷ js) (id i ∷ items) = elim (read_ids js items) [
  | none ↦ none
  | some (is, rest) ↦ some (i ∷ is, rest)
]
read_ids (j ∷ js) _ = none

abbrev ids_value : Option (List CollectorId × List Item) → Proc Item → Coded Item (List CollectorId)
ids_value none p = failed p
ids_value (some (is, rest)) p = coded is (record p { units = rest })

abbrev copy_ids : List CollectorId → Code Item (List CollectorId)
copy_ids ids p = elim p.op [
  | encode ↦ coded ids (record p { units = p.units ++ wires (λ i. id i ∷ []) ids })
  | decode ↦ ids_value (read_ids ids p.units) p
  | free ↦ coded ids p
]

pub read_ids-wires :
    (junk ids : List CollectorId) (rest : List Item)
    → length junk ≡ length ids
    → read_ids junk (wires (λ i. id i ∷ []) ids ++ rest) ≡ some (ids, rest)
read_ids-wires [] [] rest h = refl
read_ids-wires [] (i ∷ is) rest h = absurd (omega arith)
read_ids-wires (j ∷ js) [] rest h = absurd (omega arith)
read_ids-wires (j ∷ js) (i ∷ is) rest h = rw (read_ids-wires js is rest (omega arith)) refl

pub read_ids_short :
    (junk : List CollectorId) (items : List Item)
    → length items < length junk
    → read_ids junk items ≡ none
read_ids_short [] items h = absurd (omega arith)
read_ids_short (j ∷ js) [] h = refl
read_ids_short (j ∷ js) (id i ∷ items) h = rw (read_ids_short js items (omega arith)) refl
read_ids_short (j ∷ js) (text s ∷ items) h = refl
read_ids_short (j ∷ js) (number z ∷ items) h = refl
read_ids_short (j ∷ js) (size n ∷ items) h = refl

abbrev in_turn :
    ((t : FieldType) → Field t → Code Item (Field t))
    → (ts : List FieldType) → Fields ts
    → Code Item (Fields ts)
in_turn f [] x = pure x
in_turn f (t ∷ ts) (x, xs) = f t x >>= λ y. in_turn f ts xs >>= λ ys. pure (y, ys)

instance abbrev pub items : Mercury Item
items = record {
  string = item_proc text as_text string_blocks;
  int32 = item_proc number as_number (λ z. 0);
  size = item_proc size as_size (λ n. 0);
  memcpy = copy_ids;
  gen_proc = in_turn;
  string_wire = λ s. text s ∷ [];
  string_freed = λ s. s;
  int32_wire = λ z. number z ∷ [];
  size_wire = λ n. size n ∷ [];
  id_wire = λ i. id i ∷ [];
  id_size = 1;
  string-IsCoder = item_proc-IsCoder text as_text string_blocks (λ s. refl);
  int32-IsCoder = item_proc-IsCoder number as_number (λ z. 0) (λ z. refl);
  size-IsCoder = item_proc-IsCoder size as_size (λ n. 0) (λ n. refl);
  length-id_wire = λ i. refl;
  id_size_pos = omega arith;
  memcpy_encode = λ ids p e. rw e refl;
  memcpy_decode = λ junk ids rest p e l u. rw (e, u, read_ids-wires junk ids rest l) refl;
  memcpy_short = λ junk p e short. rw (e, read_ids_short junk p.units (omega (arith, short))) refl;
  memcpy_free = λ ids p e. rw e refl;
  gen_proc-nil = λ f p. refl;
  gen_proc-cons = λ f t ts x xs p. refl;
}

-- What the structures hold before they are read into.
abbrev pub junk : (t : MessageType) → Message t
junk create_collector_in_t = record { type = none; config = some "?"; token = none }
junk create_collector_out_t = record { ret = err_other; id = 3 }
junk open_collector_in_t = record { type = none; config = some "?"; token = none }
junk open_collector_out_t = record { ret = err_other; id = 3 }
junk close_collector_in_t = record { token = some "?"; id = 4 }
junk close_collector_out_t = record { ret = err_other }
junk destroy_collector_in_t = record { token = some "?"; id = 4 }
junk destroy_collector_out_t = record { ret = err_other }
junk list_collectors_in_t = record { token = some "?"; max_ids = 99 }
junk list_collectors_out_t = record { ret = err_other; count = 5; ids = none }
junk hello_in_t = record { collector_id = 6 }
junk sum_in_t = record { collector_id = 6; x = negsuc 0; y = pos 1 }
junk sum_out_t = record { result = pos 1; ret = err_other }
