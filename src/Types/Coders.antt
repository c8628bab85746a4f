-- ===== src/Types/Coders.antt =====
-- What the functions that MERCURY_GEN_PROC makes for the structures of src/types.h write and read.
use soma_c.Prelude.{
  ℕ, ◌+◌, ◌-◌, ◌≡◌, refl, sym, ◌∙◌, ap, List, [], ◌∷◌, ◌++◌, append-nil, append_assoc, arith,
}
use soma_c.Types.Fields.{
  FieldType, hg_string_t, int32_t, hg_size_t, soma_collector_id_t, Field, Fields,
}
use soma_c.Types.Layouts.{Layout, on_field, on_fields}
use soma_c.Types.Messages.{hg_proc_soma_collector_id, hg_proc_field, gen_message}
use soma_c.Foreign.Mercury.{
  Mercury, Proc, encode, decode, free, coded, ◌>>=◌, Coding, IsCoder, string_blocks,
}

abbrev pub field_blocks : (t : FieldType) → Field t → ℕ
field_blocks hg_string_t x = string_blocks x
field_blocks int32_t x = 0
field_blocks hg_size_t x = 0
field_blocks soma_collector_id_t x = 0

abbrev pub fields_blocks : (ts : List FieldType) → Fields ts → ℕ
fields_blocks [] x = 0
fields_blocks (t ∷ ts) (x, xs) = field_blocks t x + fields_blocks ts xs

module _ {W : Type 0} ⦃m : Mercury W⦄ where
  abbrev pub field_wire : (t : FieldType) → Field t → List W
  field_wire hg_string_t x = m.string_wire x
  field_wire int32_t x = m.int32_wire x
  field_wire hg_size_t x = m.size_wire x
  field_wire soma_collector_id_t x = m.id_wire x

  abbrev pub field_coding : (t : FieldType) → Coding W (Field t)
  field_coding t = record {
    wire = field_wire t;
    owned = field_blocks t;
    freed = on_field m.string_freed t;
  }

  abbrev pub fields_wire : (ts : List FieldType) → Fields ts → List W
  fields_wire [] x = []
  fields_wire (t ∷ ts) (x, xs) = field_wire t x ++ fields_wire ts xs

  abbrev pub fields_coding : (ts : List FieldType) → Coding W (Fields ts)
  fields_coding ts = record {
    wire = fields_wire ts;
    owned = fields_blocks ts;
    freed = on_fields m.string_freed ts;
  }

  id-IsCoder : IsCoder (hg_proc_field soma_collector_id_t) (field_coding soma_collector_id_t)
  unfolding hg_proc_field hg_proc_soma_collector_id
  id-IsCoder = record {
    encodes = λ a p e.
        rw
          (
            m.memcpy_encode (a ∷ []) p e,
            hg_proc_field,
            hg_proc_soma_collector_id,
            ◌>>=◌,
            append-nil,
          )
          refl;
    decodes = λ junk a rest p e u.
        let u' : p.units ≡ (m.id_wire a ++ []) ++ rest =
          u ∙ ap (λ (w : List W). w ++ rest) (sym (append-nil (m.id_wire a))) in
        rw
          (
            m.memcpy_decode (junk ∷ []) (a ∷ []) rest p e refl u',
            hg_proc_field,
            hg_proc_soma_collector_id,
            ◌>>=◌,
          )
          (ground arith);
    frees = λ a p e.
        rw (m.memcpy_free (a ∷ []) p e, hg_proc_field, hg_proc_soma_collector_id, ◌>>=◌)
          (ground arith);
  }

  field-IsCoder : (t : FieldType) → IsCoder (hg_proc_field t) (field_coding t)
  unfolding hg_proc_field
  field-IsCoder hg_string_t = m.string-IsCoder
  field-IsCoder int32_t = m.int32-IsCoder
  field-IsCoder hg_size_t = m.size-IsCoder
  field-IsCoder soma_collector_id_t = id-IsCoder

  gen_proc-encodes :
      (ts : List FieldType) (x : Fields ts) (p : Proc W)
      → p.op ≡ encode
      → m.gen_proc hg_proc_field ts x p ≡ coded x (record p { units = p.units ++ fields_wire ts x })
  gen_proc-encodes [] x p e = m.gen_proc-nil hg_proc_field p ∙ rw append-nil refl
  gen_proc-encodes (t ∷ ts) (x, xs) p e =
      let q = record p { units = p.units ++ field_wire t x } in
      m.gen_proc-cons hg_proc_field t ts x xs p
      ∙ rw ((field-IsCoder t).encodes x p e, ◌>>=◌, gen_proc-encodes ts xs q e, append_assoc) refl

  gen_proc-decodes :
      (ts : List FieldType) (junk x : Fields ts) (rest : List W) (p : Proc W)
      → p.op ≡ decode
      → p.units ≡ fields_wire ts x ++ rest
      → m.gen_proc hg_proc_field ts junk p
        ≡ coded x (record p { units = rest; blocks = p.blocks + fields_blocks ts x })
  gen_proc-decodes [] junk x rest p e u = m.gen_proc-nil hg_proc_field p ∙ ground arith
  gen_proc-decodes (t ∷ ts) (j, js) (x, xs) rest p e u =
      let q = record p {
        units = fields_wire ts xs ++ rest;
        blocks = p.blocks + field_blocks t x;
      } in
      m.gen_proc-cons hg_proc_field t ts j js p
      ∙ rw
          (
            (field-IsCoder t).decodes j x (fields_wire ts xs ++ rest) p e
                (u ∙ append_assoc (field_wire t x) (fields_wire ts xs) rest),
            ◌>>=◌,
            gen_proc-decodes ts js xs rest q e refl,
          )
          (ground arith)

  gen_proc-frees :
      (ts : List FieldType) (x : Fields ts) (p : Proc W)
      → p.op ≡ free
      → m.gen_proc hg_proc_field ts x p
        ≡ coded
            (on_fields m.string_freed ts x)
            (record p { blocks = p.blocks - fields_blocks ts x })
  gen_proc-frees [] x p e = m.gen_proc-nil hg_proc_field p ∙ ground arith
  gen_proc-frees (t ∷ ts) (x, xs) p e =
      let q = record p { blocks = p.blocks - field_blocks t x } in
      m.gen_proc-cons hg_proc_field t ts x xs p
      ∙ rw ((field-IsCoder t).frees x p e, ◌>>=◌, gen_proc-frees ts xs q e) (ground arith)

  abbrev pub layout_coding : {R : Type 0} → Layout R → Coding W R
  layout_coding l = record {
    wire = λ r. fields_wire l.types (l.fields r);
    owned = λ r. fields_blocks l.types (l.fields r);
    freed = l.with_strings m.string_freed;
  }

  -- The function that is made for a structure writes its fields in order, reads them back, and frees
  -- their strings.
  pub gen_message-IsCoder : {R : Type 0} (l : Layout R) → IsCoder (gen_message l) (layout_coding l)
  unfolding gen_message
  gen_message-IsCoder l = record {
    encodes = λ a p e.
        rw (gen_proc-encodes l.types (l.fields a) p e, gen_message, ◌>>=◌, l.of_fields-fields a)
          refl;
    decodes = λ junk a rest p e u.
        rw
          (
            gen_proc-decodes l.types (l.fields junk) (l.fields a) rest p e u,
            gen_message,
            ◌>>=◌,
            l.of_fields-fields a,
          )
          refl;
    frees = λ a p e.
        rw
          (
            gen_proc-frees l.types (l.fields a) p e,
            gen_message,
            ◌>>=◌,
            l.of_fields-on_fields m.string_freed a,
          )
          refl;
  }
