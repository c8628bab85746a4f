-- ===== src/Foreign/Mercury.antt =====
-- Mercury's serialization, as src/types.h uses it. `W` is the unit of a buffer.
use soma_c.Prelude.{
  ℕ, ◌<◌, ◌*◌, ◌+◌, ◌-◌, ◌≡◌, String, Option, none, some, List, [], ◌∷◌, ◌++◌, length,
}
use soma_c.Prelude.Int.{ℤ}
use soma_c.Common.{CollectorId}
use soma_c.Types.Fields.{FieldType, Field, Fields}

-- HG_ENCODE, HG_DECODE, HG_FREE
pub data Op : Type 0 where
  encode decode free : Op

-- hg_proc_t: the units that were written, or that are left to be read, and the number of blocks that
-- were allocated for what was read and are not freed.
pub record Proc (W : Type 0) : Type 0 where
  pub op : Op
  pub units : List W
  pub blocks : ℕ

-- What a hg_proc function comes to: HG_SUCCESS, with the data that its pointer leads to; an error;
-- or undefined behaviour.
pub data Coded (W A : Type 0) : Type 0 where
  coded : A → Proc W → Coded W A
  failed : Proc W → Coded W A
  fault : Coded W A

abbrev pub Code : Type 0 → Type 0 → Type 0
Code W A = Proc W → Coded W A

infixl 5 ◌>>=◌
abbrev pub ◌>>=◌ : {W A B : Type 0} → Code W A → (A → Code W B) → Code W B
◌>>=◌ m f p = elim (m p) [ coded a q ↦ f a q | failed q ↦ failed q | fault ↦ fault ]

abbrev pub pure : {W A : Type 0} → A → Code W A
pure a p = coded a p

-- How the values of a type are written, how many blocks are allocated for a value that is read, and
-- what it is once they are freed.
pub record Coding (W A : Type 0) : Type 0 where
  pub wire : A → List W
  pub owned : A → ℕ
  pub freed : A → A

-- A function that writes every value behind what is written, reads it back from there into whatever
-- data, and frees what it allocated.
pub record IsCoder {W A : Type 0} (f : A → Code W A) (c : Coding W A) : Type 0 where
  pub encodes :
      (a : A) (p : Proc W)
      → p.op ≡ encode
      → f a p ≡ coded a (record p { units = p.units ++ c.wire a })
  pub decodes :
      (junk a : A) (rest : List W) (p : Proc W)
      → p.op ≡ decode
      → p.units ≡ c.wire a ++ rest
      → f junk p ≡ coded a (record p { units = rest; blocks = p.blocks + c.owned a })
  pub frees :
      (a : A) (p : Proc W)
      → p.op ≡ free
      → f a p ≡ coded (c.freed a) (record p { blocks = p.blocks - c.owned a })

-- A string that was read is a block of its own.
abbrev pub string_blocks : Option String → ℕ
string_blocks none = 0
string_blocks (some s) = 1

-- Values without blocks.
abbrev pub flat : {W A : Type 0} → (A → List W) → Coding W A
flat wire = record { wire = wire; owned = λ a. 0; freed = λ a. a }

abbrev pub wires : {W : Type 0} → (CollectorId → List W) → List CollectorId → List W
wires wire [] = []
wires wire (i ∷ is) = wire i ++ wires wire is

-- Mercury finds memory for its buffers and for the strings that it reads.
pub record Mercury (W : Type 0) : Type 0 where
  -- hg_proc_hg_string_t, hg_proc_int32_t, hg_proc_hg_size_t
  pub string : Option String → Code W (Option String)
  pub int32 : ℤ → Code W ℤ
  pub size : ℕ → Code W ℕ
  -- hg_proc_memcpy of an array of ids
  pub memcpy : List CollectorId → Code W (List CollectorId)
  -- The function that MERCURY_GEN_PROC makes for a structure with these fields, from the functions
  -- for their types.
  pub gen_proc :
      ((t : FieldType) → Field t → Code W (Field t))
      → (ts : List FieldType) → Fields ts
      → Code W (Fields ts)
  pub string_wire : Option String → List W
  pub string_freed : Option String → Option String
  pub int32_wire : ℤ → List W
  pub size_wire : ℕ → List W
  pub id_wire : CollectorId → List W
  -- sizeof(soma_collector_id_t)
  pub id_size : ℕ
  pub string-IsCoder :
      IsCoder string (record { wire = string_wire; owned = string_blocks; freed = string_freed })
  pub int32-IsCoder : IsCoder int32 (flat int32_wire)
  pub size-IsCoder : IsCoder size (flat size_wire)
  pub length-id_wire : (i : CollectorId) → length (id_wire i) ≡ id_size
  pub id_size_pos : 0 < id_size
  -- Ids are copied to the buffer and from it, as many as the array has; there have to be enough.
  pub memcpy_encode :
      (ids : List CollectorId) (p : Proc W)
      → p.op ≡ encode
      → memcpy ids p ≡ coded ids (record p { units = p.units ++ wires id_wire ids })
  pub memcpy_decode :
      (junk ids : List CollectorId) (rest : List W) (p : Proc W)
      → p.op ≡ decode
      → length junk ≡ length ids
      → p.units ≡ wires id_wire ids ++ rest
      → memcpy junk p ≡ coded ids (record p { units = rest })
  pub memcpy_short :
      (junk : List CollectorId) (p : Proc W)
      → p.op ≡ decode
      → length p.units < id_size * length junk
      → memcpy junk p ≡ failed p
  pub memcpy_free : (ids : List CollectorId) (p : Proc W) → p.op ≡ free → memcpy ids p ≡ coded ids p
  -- The function for each field is called in turn, up to the first error.
  pub gen_proc-nil :
      (f : (t : FieldType) → Field t → Code W (Field t)) (p : Proc W)
      → gen_proc f [] tt p ≡ coded tt p
  pub gen_proc-cons :
      (f : (t : FieldType) → Field t → Code W (Field t)) (t : FieldType) (ts : List FieldType)
      (x : Field t) (xs : Fields ts) (p : Proc W)
      → gen_proc f (t ∷ ts) (x, xs) p
        ≡ (f t x >>= λ (y : Field t). gen_proc f ts xs >>= λ (ys : Fields ts). pure (y, ys)) p
