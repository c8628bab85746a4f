-- ===== src/Types/ListOut.antt =====
-- hg_proc_list_collectors_out_t of src/types.h, the function that is written by hand: what it writes,
-- reads and frees.
use soma_c.Prelude.{
  ℕ, suc, ◌≤◌, ◌<◌, ◌+◌, ◌-◌, ◌*◌, ◌≡◌, refl, sym, ap, ◌∙◌, Bool, true, none, some, List, [], ◌++◌,
  append-nil, append_assoc, arith, take, length, replicate, length-replicate, take_++_drop,
  length-take, take-replicate, drop-replicate,
}
use soma_c.Common.{CollectorId, return_code-return_value}
use soma_c.Types.{ListCollectorsOut}
use soma_c.Types.Layouts.{code_field}
use soma_c.Types.Serialize.{copy_array, hg_proc_list_collectors_out}
use soma_c.Foreign.Mercury.{Mercury, Proc, encode, decode, free, coded, failed, wires}

product_pos : (a b : ℕ) → 0 < a → 0 < b → 0 < a * b
product_pos a b ha hb = grind arith

module _ {W : Type 0} ⦃m : Mercury W⦄ where
  copy_array_encode :
      (count : ℕ) (ids : List CollectorId) (p : Proc W)
      → p.op ≡ encode
      → count ≤ length ids
      → copy_array count ids p
        ≡ coded ids (record p { units = p.units ++ wires m.id_wire (take count ids) })
  unfolding copy_array
  copy_array_encode count ids p e fits =
      ground (arith, m.memcpy_encode (take count ids) p e, take_++_drop count ids)

  copy_array_decode :
      (count : ℕ) (ids : List CollectorId) (rest : List W) (p : Proc W)
      → p.op ≡ decode
      → length ids ≡ count
      → p.units ≡ wires m.id_wire ids ++ rest
      → copy_array count (replicate count 0) p ≡ coded ids (record p { units = rest })
  unfolding copy_array
  copy_array_decode count ids rest p e fits u =
      rw
        (take-replicate {0} {A = CollectorId} count 0, drop-replicate {0} {A = CollectorId} count 0)
        (ground (
          arith,
          length-replicate {0} {A = CollectorId} count 0,
          append-nil ids,
          m.memcpy_decode (replicate count 0) ids rest p e (length-replicate count 0 ∙ sym fits) u,
        ))

  copy_array_short :
      (count : ℕ) (p : Proc W)
      → p.op ≡ decode
      → p.units ≡ []
      → 0 < count
      → copy_array count (replicate count 0) p ≡ failed p
  unfolding copy_array
  copy_array_short count p e u more =
      let sized = length-replicate {0} {A = CollectorId} count 0 in
      let short : length p.units < m.id_size * length (replicate {A = CollectorId} count 0) =
        rw (u, sized) (product_pos m.id_size count m.id_size_pos more) in
      rw (take-replicate {0} {A = CollectorId} count 0)
        (ground (arith, sized, m.memcpy_short (replicate count 0) p e short))

  -- What is written of a message, with its array.
  abbrev pub list_wire : ListCollectorsOut → List CollectorId → List W
  list_wire out ids =
      m.int32_wire (code_field out.ret)
      ++ (m.size_wire out.count ++ wires m.id_wire (take out.count ids))

  pub list_out_encode :
      (grants : ℕ → Bool) (out : ListCollectorsOut) (ids : List CollectorId) (p : Proc W)
      → p.op ≡ encode
      → out.ids ≡ some ids
      → out.count ≤ length ids
      → hg_proc_list_collectors_out grants out p
        ≡ coded out (record p { units = p.units ++ list_wire out ids })
  unfolding hg_proc_list_collectors_out
  list_out_encode grants out ids p e held fits =
      let q1 = record p { units = p.units ++ m.int32_wire (code_field out.ret) } in
      let q2 = record p { units = q1.units ++ m.size_wire out.count } in
      ground (
        arith,
        m.int32-IsCoder.encodes (code_field out.ret) p e,
        m.size-IsCoder.encodes out.count q1 e,
        copy_array_encode out.count ids q2 e fits,
        return_code-return_value out.ret,
        append_assoc p.units (m.int32_wire (code_field out.ret))
            (m.size_wire out.count ++ wires m.id_wire (take out.count ids)),
        append_assoc (p.units ++ m.int32_wire (code_field out.ret)) (m.size_wire out.count)
            (wires m.id_wire (take out.count ids)),
      )

  pub list_out_decode :
      (grants : ℕ → Bool) (junk out : ListCollectorsOut) (ids : List CollectorId) (rest : List W)
      (p : Proc W)
      → p.op ≡ decode
      → out.count ≤ length ids
      → grants out.count ≡ true
      → p.units ≡ list_wire out ids ++ rest
      → hg_proc_list_collectors_out grants junk p
        ≡ coded
            (record out { ids = some (take out.count ids) })
            (record p { units = rest; blocks = p.blocks + 1 })
  unfolding hg_proc_list_collectors_out
  list_out_decode grants junk out ids rest p e fits room u =
      let array = wires m.id_wire (take out.count ids) in
      let q1 = record p { units = m.size_wire out.count ++ (array ++ rest) } in
      let q2 = record p { units = array ++ rest; blocks = suc p.blocks } in
      let split : p.units
          ≡ m.int32_wire (code_field out.ret) ++ (m.size_wire out.count ++ (array ++ rest)) =
        u
        ∙ append_assoc (m.int32_wire (code_field out.ret)) (m.size_wire out.count ++ array) rest
        ∙ ap (λ (w : List W). m.int32_wire (code_field out.ret) ++ w)
            (append_assoc (m.size_wire out.count) array rest) in
      ground (
        arith,
        m.int32-IsCoder.decodes (code_field junk.ret) (code_field out.ret) q1.units p e split,
        m.size-IsCoder.decodes junk.count out.count q2.units q1 e refl,
        copy_array_decode out.count (take out.count ids) rest q2 e (length-take out.count ids fits)
            refl,
        return_code-return_value out.ret,
      )

  pub list_out_free :
      (grants : ℕ → Bool) (out : ListCollectorsOut) (ids : List CollectorId) (p : Proc W)
      → p.op ≡ free
      → out.ids ≡ some ids
      → hg_proc_list_collectors_out grants out p ≡ coded out (record p { blocks = p.blocks - 1 })
  unfolding hg_proc_list_collectors_out
  list_out_free grants out ids p e held = ground (
    arith,
    m.int32-IsCoder.frees (code_field out.ret) p e,
    m.size-IsCoder.frees out.count p e,
    return_code-return_value out.ret,
  )

  -- What is written of a message whose `ids` are NULL.
  abbrev pub null_wire : ListCollectorsOut → List W
  null_wire out = m.int32_wire (code_field out.ret) ++ m.size_wire out.count

  pub null_encode :
      (grants : ℕ → Bool) (out : ListCollectorsOut) (p : Proc W)
      → p.op ≡ encode
      → out.ids ≡ none
      → hg_proc_list_collectors_out grants out p
        ≡ coded out (record p { units = p.units ++ null_wire out })
  unfolding hg_proc_list_collectors_out
  null_encode grants out p e null =
      let q1 = record p { units = p.units ++ m.int32_wire (code_field out.ret) } in
      ground (
        arith,
        m.int32-IsCoder.encodes (code_field out.ret) p e,
        m.size-IsCoder.encodes out.count q1 e,
        return_code-return_value out.ret,
        append_assoc p.units (m.int32_wire (code_field out.ret)) (m.size_wire out.count),
      )

  pub null_decode :
      (grants : ℕ → Bool) (junk out : ListCollectorsOut) (p : Proc W)
      → p.op ≡ decode
      → 0 < out.count
      → grants out.count ≡ true
      → p.units ≡ null_wire out
      → hg_proc_list_collectors_out grants junk p
        ≡ failed (record p { units = []; blocks = p.blocks + 1 })
  unfolding hg_proc_list_collectors_out
  null_decode grants junk out p e more room u =
      let q1 = record p { units = m.size_wire out.count } in
      let q2 = record p { units = []; blocks = suc p.blocks } in
      ground (
        arith,
        m.int32-IsCoder.decodes (code_field junk.ret) (code_field out.ret) q1.units p e u,
        m.size-IsCoder.decodes junk.count out.count [] q1 e
            (sym (append-nil (m.size_wire out.count))),
        copy_array_short out.count q2 e refl more,
      )
