-- ===== src/Provider/Backends.antt =====
-- find_backend_impl and add_backend_impl of src/provider.c.
pub mod Lookup
use soma_c.Prelude.{
  ℕ, zero, suc, ◌+◌, ◌-◌, ◌*◌, ◌%◌, ◌^◌, String, str_eq, Bool, Option, none, some, List, [], ◌∷◌,
  ◌++◌, leb, if◌then◌else◌, get_elem?,
}
use soma_c.Common.{ReturnCode, success}
use soma_c.Backend.{BackendImpl}
use soma_c.Provider.State.{Provider}

-- A size_t plus one and minus one.
abbrev pub size_mod : ℕ
size_mod = 2 ^ 64

abbrev pub incr_size : ℕ → ℕ
incr_size n = (n + 1) % size_mod

abbrev pub decr_size : ℕ → ℕ
decr_size n = (n + (size_mod - 1)) % size_mod

-- sizeof(soma_backend_impl*)
abbrev pub pointer_size : ℕ
pointer_size = 8

-- strcmp(a, b) == 0, a fault if `a` is NULL.
abbrev pub strcmp_eq : Option String → String → Option Bool
strcmp_eq none t = none
strcmp_eq (some s) t = some (str_eq s t)

module _ {W : Type 0} where
  -- The loop, with `left` rounds to go at index `i`. The outer `none` is a fault: a NULL name, or
  -- an index outside of the array. The inner one is the NULL that is returned.
  pub find_backend_loop :
      Option String → List (BackendImpl W) → (left i : ℕ) → Option (Option (BackendImpl W))
  find_backend_loop name types zero i = some none
  find_backend_loop name types (suc left) i =
      let rest = find_backend_loop name types left (i + 1) in
      elim (get_elem? types i) [
        | none ↦ none
        | some impl ↦ elim (strcmp_eq name impl.name) [
          | none ↦ none
          | some same ↦ if same then some (some impl) else rest
        ]
      ]

module _ {W T : Type 0} where
  unfoldable pub find_backend_impl : Provider W T → Option String → Option (Option (BackendImpl W))
  unfolding find_backend_loop
  find_backend_impl p name = find_backend_loop name p.backend_types p.num_backend_types 0

  -- The block that `realloc` returns for a size of n bytes has `usable n` bytes; a write outside
  -- of it is a fault. The size that is asked for is `num_backend_types`.
  unfoldable pub add_backend_impl :
      (usable : ℕ → ℕ) → Provider W T → BackendImpl W → Option (ReturnCode × Provider W T)
  add_backend_impl usable p backend =
      let num = incr_size p.num_backend_types in
      if leb (pointer_size * num) (usable num)
      then some (
        success,
        record p {
          num_backend_types = num;
          backend_types = p.backend_types ++ backend ∷ [];
          backend_types_size = num;
        },
      )
      else none
