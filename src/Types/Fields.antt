-- ===== src/Types/Fields.antt =====
-- The types of the fields that the messages of src/types.h list.
use soma_c.Prelude.{ℕ, String, Option, List, [], ◌∷◌}
use soma_c.Prelude.Int.{ℤ}
use soma_c.Common.{CollectorId}

pub data FieldType : Type 0 where
  hg_string_t int32_t hg_size_t soma_collector_id_t : FieldType

-- The values of a type; a `hg_string_t` may be NULL.
abbrev pub Field : FieldType → Type 0
Field hg_string_t = Option String
Field int32_t = ℤ
Field hg_size_t = ℕ
Field soma_collector_id_t = CollectorId

abbrev pub Fields : List FieldType → Type 0
Fields [] = Unit
Fields (t ∷ ts) = Field t × Fields ts
