-- ===== src/Types/Layouts.antt =====
-- src/types.h: the structures that MERCURY_GEN_PROC declares, and the types of the messages.
use soma_c.Prelude.{String, ◌≡◌, refl, Option, none, some, List, [], ◌∷◌}
use soma_c.Prelude.Int.{ℤ, pos}
use soma_c.Common.{ReturnCode, return_value, return_code, return_code-return_value}
use soma_c.Types.{
  CreateCollectorIn, CreateCollectorOut, CloseCollectorIn, CloseCollectorOut, ListCollectorsIn,
  ListCollectorsOut, HelloIn, SumIn, SumOut,
}
use soma_c.Types.Fields.{
  FieldType, hg_string_t, int32_t, hg_size_t, soma_collector_id_t, Field, Fields,
}

-- The strings of the fields, changed.
abbrev pub on_field : (Option String → Option String) → (t : FieldType) → Field t → Field t
on_field g hg_string_t x = g x
on_field g int32_t x = x
on_field g hg_size_t x = x
on_field g soma_collector_id_t x = x

abbrev pub on_fields :
    (Option String → Option String) → (ts : List FieldType) → Fields ts → Fields ts
on_fields g [] x = tt
on_fields g (t ∷ ts) (x, xs) = (on_field g t x, on_fields g ts xs)

-- A structure that MERCURY_GEN_PROC declares: the types of its fields, what they hold, and the
-- structure with other strings. Its `ret` is a number there, which may be no return code.
pub record Layout (R : Type 0) : Type 0 where
  pub types : List FieldType
  pub fields : R → Fields types
  pub of_fields : Fields types → Option R
  pub with_strings : (Option String → Option String) → R → R
  pub of_fields-fields : (r : R) → of_fields (fields r) ≡ some r
  pub of_fields-on_fields :
      (g : Option String → Option String) (r : R)
      → of_fields (on_fields g types (fields r)) ≡ some (with_strings g r)

abbrev pub create_in : Layout CreateCollectorIn
create_in = record {
  types = hg_string_t ∷ hg_string_t ∷ hg_string_t ∷ [];
  fields = λ r. (r.type, (r.config, (r.token, tt)));
  of_fields = λ x. some (record { type = x.0; config = x.1.0; token = x.1.1.0 });
  with_strings = λ g r. record { type = g r.type; config = g r.config; token = g r.token };
  of_fields-fields = λ r. refl;
  of_fields-on_fields = λ g r. refl;
}

-- With `ret` as a return code, if it is one.
abbrev pub with_code : {R : Type 0} → ℤ → (ReturnCode → R) → Option R
with_code z f = elim (return_code z) [ none ↦ none | some c ↦ some (f c) ]

abbrev pub code_field : ReturnCode → ℤ
code_field c = pos (return_value c)

pub with_code-code_field :
    {R : Type 0} (c : ReturnCode) (f : ReturnCode → R) → with_code (code_field c) f ≡ some (f c)
with_code-code_field c f = rw (return_code-return_value c, with_code) refl

abbrev pub create_out : Layout CreateCollectorOut
create_out = record {
  types = int32_t ∷ soma_collector_id_t ∷ [];
  fields = λ r. (code_field r.ret, (r.id, tt));
  of_fields = λ x. with_code x.0 (λ c. record { ret = c; id = x.1.0 });
  with_strings = λ g r. r;
  of_fields-fields = λ r. with_code-code_field r.ret (λ c. record { ret = c; id = r.id });
  of_fields-on_fields = λ g r. with_code-code_field r.ret (λ c. record { ret = c; id = r.id });
}

abbrev pub close_in : Layout CloseCollectorIn
close_in = record {
  types = hg_string_t ∷ soma_collector_id_t ∷ [];
  fields = λ r. (r.token, (r.id, tt));
  of_fields = λ x. some (record { token = x.0; id = x.1.0 });
  with_strings = λ g r. record r { token = g r.token };
  of_fields-fields = λ r. refl;
  of_fields-on_fields = λ g r. refl;
}

abbrev pub close_out : Layout CloseCollectorOut
close_out = record {
  types = int32_t ∷ [];
  fields = λ r. (code_field r.ret, tt);
  of_fields = λ x. with_code x.0 (λ c. record { ret = c });
  with_strings = λ g r. r;
  of_fields-fields = λ r. with_code-code_field r.ret (λ c. record { ret = c });
  of_fields-on_fields = λ g r. with_code-code_field r.ret (λ c. record { ret = c });
}

abbrev pub list_in : Layout ListCollectorsIn
list_in = record {
  types = hg_string_t ∷ hg_size_t ∷ [];
  fields = λ r. (r.token, (r.max_ids, tt));
  of_fields = λ x. some (record { token = x.0; max_ids = x.1.0 });
  with_strings = λ g r. record r { token = g r.token };
  of_fields-fields = λ r. refl;
  of_fields-on_fields = λ g r. refl;
}

abbrev pub hello_in : Layout HelloIn
hello_in = record {
  types = soma_collector_id_t ∷ [];
  fields = λ r. (r.collector_id, tt);
  of_fields = λ x. some (record { collector_id = x.0 });
  with_strings = λ g r. r;
  of_fields-fields = λ r. refl;
  of_fields-on_fields = λ g r. refl;
}

abbrev pub sum_in : Layout SumIn
sum_in = record {
  types = soma_collector_id_t ∷ int32_t ∷ int32_t ∷ [];
  fields = λ r. (r.collector_id, (r.x, (r.y, tt)));
  of_fields = λ v. some (record { collector_id = v.0; x = v.1.0; y = v.1.1.0 });
  with_strings = λ g r. r;
  of_fields-fields = λ r. refl;
  of_fields-on_fields = λ g r. refl;
}

-- `result` comes first.
abbrev pub sum_out : Layout SumOut
sum_out = record {
  types = int32_t ∷ int32_t ∷ [];
  fields = λ r. (r.result, (code_field r.ret, tt));
  of_fields = λ x. with_code x.1.0 (λ c. record { result = x.0; ret = c });
  with_strings = λ g r. r;
  of_fields-fields = λ r. with_code-code_field r.ret (λ c. record { result = r.result; ret = c });
  of_fields-on_fields =
      λ g r. with_code-code_field r.ret (λ c. record { result = r.result; ret = c });
}

-- Structures with the fields of another.
abbrev pub open_in : Layout CreateCollectorIn
open_in = create_in

abbrev pub open_out : Layout CreateCollectorOut
open_out = create_out

abbrev pub destroy_in : Layout CloseCollectorIn
destroy_in = close_in

abbrev pub destroy_out : Layout CloseCollectorOut
destroy_out = close_out

-- The types of the messages.
pub data MessageType : Type 0 where
  create_collector_in_t create_collector_out_t : MessageType
  open_collector_in_t open_collector_out_t : MessageType
  close_collector_in_t close_collector_out_t : MessageType
  destroy_collector_in_t destroy_collector_out_t : MessageType
  list_collectors_in_t list_collectors_out_t : MessageType
  hello_in_t sum_in_t sum_out_t : MessageType

-- The types that an RPC is registered with: its input, and its output unless that is `void`.
abbrev pub Signature : Type 0
Signature = MessageType × Option MessageType

-- The values of a message type.
abbrev pub Message : MessageType → Type 0
Message create_collector_in_t = CreateCollectorIn
Message create_collector_out_t = CreateCollectorOut
Message open_collector_in_t = CreateCollectorIn
Message open_collector_out_t = CreateCollectorOut
Message close_collector_in_t = CloseCollectorIn
Message close_collector_out_t = CloseCollectorOut
Message destroy_collector_in_t = CloseCollectorIn
Message destroy_collector_out_t = CloseCollectorOut
Message list_collectors_in_t = ListCollectorsIn
Message list_collectors_out_t = ListCollectorsOut
Message hello_in_t = HelloIn
Message sum_in_t = SumIn
Message sum_out_t = SumOut
