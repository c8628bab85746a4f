-- ===== src/Common.antt =====
-- include/soma/soma-common.h: the return codes and the collector identifiers.
pub mod IdText
use soma_c.Prelude.{ℕ, ◌≡◌, refl, Bool, true, false, Option, none, some, List, [], ◌∷◌, get_elem?}
use soma_c.Prelude.Int.{ℤ, pos, negsuc}

-- enum soma_return_t
pub data ReturnCode : Type 0 where
  success err_allocation err_invalid_args err_invalid_provider err_invalid_collector : ReturnCode
  err_invalid_backend err_invalid_config err_invalid_token err_from_mercury : ReturnCode
  err_from_argobots err_op_unsupported err_op_forbidden err_other : ReturnCode

-- The numbers of the enumerators.
pub return_value : ReturnCode → ℕ
return_value success = 0
return_value err_allocation = 1
return_value err_invalid_args = 2
return_value err_invalid_provider = 3
return_value err_invalid_collector = 4
return_value err_invalid_backend = 5
return_value err_invalid_config = 6
return_value err_invalid_token = 7
return_value err_from_mercury = 8
return_value err_from_argobots = 9
return_value err_op_unsupported = 10
return_value err_op_forbidden = 11
return_value err_other = 12

abbrev return_codes : List ReturnCode
return_codes =
    success ∷ err_allocation ∷ err_invalid_args ∷ err_invalid_provider ∷ err_invalid_collector
    ∷ err_invalid_backend ∷ err_invalid_config ∷ err_invalid_token ∷ err_from_mercury
    ∷ err_from_argobots ∷ err_op_unsupported ∷ err_op_forbidden ∷ err_other ∷ []

-- The enumerator of a number, if it has one.
unfoldable pub return_code : ℤ → Option ReturnCode
return_code (pos n) = get_elem? return_codes n
return_code (negsuc n) = none

pub return_code-return_value : (c : ReturnCode) → return_code (pos (return_value c)) ≡ some c
unfolding return_code return_value
return_code-return_value success = refl
return_code-return_value err_allocation = refl
return_code-return_value err_invalid_args = refl
return_code-return_value err_invalid_provider = refl
return_code-return_value err_invalid_collector = refl
return_code-return_value err_invalid_backend = refl
return_code-return_value err_invalid_config = refl
return_code-return_value err_invalid_token = refl
return_code-return_value err_from_mercury = refl
return_code-return_value err_from_argobots = refl
return_code-return_value err_op_unsupported = refl
return_code-return_value err_op_forbidden = refl
return_code-return_value err_other = refl

-- ret == SOMA_SUCCESS
abbrev pub is_success : ReturnCode → Bool
is_success success = true
is_success _ = false

-- struct soma_collector_id_t: the 16 bytes of its uuid, read as one number. Two such structs have
-- the same bytes exactly if the numbers are equal.
abbrev pub CollectorId : Type 0
CollectorId = ℕ

-- A pointer; 0 is NULL.
abbrev pub Ptr : Type 0
Ptr = ℕ
