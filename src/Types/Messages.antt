-- ===== src/Types/Messages.antt =====
-- src/types.h: the functions that MERCURY_GEN_PROC makes for the structures, and
-- hg_proc_soma_collector_id_t.
use soma_c.Prelude.{none, some, List, [], ◌∷◌}
use soma_c.Common.{CollectorId}
use soma_c.Types.Fields.{FieldType, hg_string_t, int32_t, hg_size_t, soma_collector_id_t, Field}
use soma_c.Types.Layouts.{Layout}
use soma_c.Foreign.Mercury.{Mercury, fault, Code, ◌>>=◌, pure}

-- An array of one id.
abbrev first_or : CollectorId → List CollectorId → CollectorId
first_or i [] = i
first_or i (j ∷ js) = j

module _ {W : Type 0} ⦃m : Mercury W⦄ where
  unfoldable pub hg_proc_soma_collector_id : CollectorId → Code W CollectorId
  hg_proc_soma_collector_id id = do ids ← m.memcpy (id ∷ []); pure (first_or id ids)

  -- hg_proc_<type> of each type of a field
  unfoldable pub hg_proc_field : (t : FieldType) → Field t → Code W (Field t)
  unfolding hg_proc_soma_collector_id
  hg_proc_field hg_string_t x = m.string x
  hg_proc_field int32_t x = m.int32 x
  hg_proc_field hg_size_t x = m.size x
  hg_proc_field soma_collector_id_t x = hg_proc_soma_collector_id x

  -- The function that the macro makes for a structure. A `ret` that is no return code, which the
  -- structures here cannot hold, ends in a fault.
  unfoldable pub gen_message : {R : Type 0} → Layout R → R → Code W R
  gen_message l r = do
    xs ← m.gen_proc hg_proc_field l.types (l.fields r)
    elim (l.of_fields xs) [ none ↦ λ p. fault | some s ↦ pure s ]
