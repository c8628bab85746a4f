-- ===== src/Provider/Backends/Lookup.antt =====
-- The lookup of a backend by its name as a search of the list of backends, and the growth of the
-- array by one backend.
use soma_c.Prelude.{
  ℕ, suc, ◌+◌, ◌*◌, ◌≤◌, ◌<◌, ◌≡◌, refl, ap, ◌∙◌, String, str_eq, Option, none, some, List, [], ◌∷◌,
  ◌++◌, arith, append_assoc, if◌then◌else◌, get_elem?, length, length-append,
}
use soma_c.Common.{success}
use soma_c.Backend.{BackendImpl}
use soma_c.Provider.State.{Provider}
use soma_c.Provider.Backends.{
  find_backend_loop, find_backend_impl, add_backend_impl, pointer_size, incr_size, size_mod,
}

-- The first backend of the list with a name.
abbrev pub first_named : {W : Type 0} → String → List (BackendImpl W) → Option (BackendImpl W)
first_named name [] = none
first_named name (b ∷ bs) = if str_eq name b.name then some b else first_named name bs

get_elem?-middle :
    {A : Type 0} (xs ys : List A) (a : A) → get_elem? (xs ++ a ∷ ys) (length xs) ≡ some a
get_elem?-middle [] ys a = refl
get_elem?-middle (x ∷ xs) ys a = get_elem?-middle xs ys a

module _ {W : Type 0} where
  find_backend_loop-first_named :
      (name : String) (pre suf : List (BackendImpl W))
      → find_backend_loop (some name) (pre ++ suf) (length suf) (length pre)
        ≡ some (first_named name suf)
  unfolding find_backend_loop
  find_backend_loop-first_named name pre [] = refl
  find_backend_loop-first_named name pre (b ∷ suf) = ground (
    arith,
    get_elem?-middle pre suf b,
    find_backend_loop-first_named name (pre ++ b ∷ []) suf,
    append_assoc pre (b ∷ []) suf,
    length-append {0} pre (b ∷ []),
  )

  first_named-append :
      (name : String) (bs : List (BackendImpl W)) (b : BackendImpl W)
      → first_named name (bs ++ b ∷ []) ≡ elim (first_named name bs) [
        | some c ↦ some c
        | none ↦ if str_eq name b.name then some b else none
      ]
  first_named-append name [] b = refl
  first_named-append name (c ∷ bs) b = ground (arith, first_named-append name bs b)

module _ {W T : Type 0} where
  -- The provider with one more backend.
  abbrev pub with_backend : Provider W T → BackendImpl W → Provider W T
  with_backend p b = record p {
    num_backend_types = incr_size p.num_backend_types;
    backend_types = p.backend_types ++ b ∷ [];
    backend_types_size = incr_size p.num_backend_types;
  }

  -- With a count that is the number of backends, find_backend_impl returns the first backend of
  -- the requested name, or NULL if there is none, and reads no slot outside of the array.
  pub find_backend_impl-first_named :
      (p : Provider W T) (name : String)
      → p.num_backend_types ≡ length p.backend_types
      → find_backend_impl p (some name) ≡ some (first_named name p.backend_types)
  unfolding find_backend_impl
  find_backend_impl-first_named p name e =
      ground (arith, find_backend_loop-first_named name [] p.backend_types)

  -- With a count that is the number of backends and does not overflow, and while the block that
  -- realloc returns has room for the pointers, registering a backend succeeds,
  -- keeps the count, and makes the backend the answer for its name where no other had it; what was
  -- found before is found still.
  pub find_backend_impl-add_backend_impl :
      (usable : ℕ → ℕ) (p : Provider W T) (b : BackendImpl W) (name : String)
      → p.num_backend_types ≡ length p.backend_types
      → length p.backend_types + 1 < size_mod
      → pointer_size * (length p.backend_types + 1) ≤ usable (length p.backend_types + 1)
      → (q : Provider W T) × (add_backend_impl usable p b ≡ some (success, q))
        × (q.num_backend_types ≡ length q.backend_types)
        × (find_backend_impl q (some name)
            ≡ some (elim (first_named name p.backend_types) [
              | some c ↦ some c
              | none ↦ if str_eq name b.name then some b else none
            ]))
  unfolding add_backend_impl
  find_backend_impl-add_backend_impl usable p b name e small room =
      let counted : incr_size p.num_backend_types ≡ length (p.backend_types ++ b ∷ []) =
        omega (arith, length-append {0} p.backend_types (b ∷ [])) in
      (
        with_backend p b,
        ground arith,
        counted,
        find_backend_impl-first_named (with_backend p b) name counted
            ∙ ap some (first_named-append name p.backend_types b),
      )

  -- The array overflows (while the count does not): realloc is asked for as many bytes as there are
  -- pointers, so if the block
  -- has no more bytes than asked for, the write of the new pointer lies outside of it.
  pub add_backend_impl_overruns :
      (p : Provider W T) (b : BackendImpl W)
      → p.num_backend_types + 1 < size_mod
      → add_backend_impl (λ n. n) p b ≡ none
  unfolding add_backend_impl
  add_backend_impl_overruns p b small = ground arith

module _ {W T : Type 0} where
  -- A NULL name is compared with the first backend's.
  pub find_backend_impl-null :
      (p : Provider W T) (b : BackendImpl W) (bs : List (BackendImpl W)) (n : ℕ)
      → p.backend_types ≡ b ∷ bs
      → p.num_backend_types ≡ suc n
      → find_backend_impl p none ≡ none
  unfolding find_backend_impl find_backend_loop
  find_backend_impl-null p b bs n e f = rw (f, e) refl
