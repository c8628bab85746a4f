-- ===== src/Dummy.antt =====
-- src/dummy/dummy-backend.c. The world of this backend is the heap of its contexts, where a NULL or
-- dangling pointer is a fault, and what it has printed.
pub mod Owned
pub mod Registry
pub mod Entries
pub mod Create
pub mod Remove
pub mod Observe
pub mod Serve
pub mod History
pub mod Concurrent
use soma_c.Prelude.{suc, String, Bool, Option, none, some, List, [], ◌∷◌, ◌++◌, ◌==◌, if◌then◌else◌}
use soma_c.Prelude.Int.{ℤ, ◌+ℤ◌, fits_int32}
use soma_c.Prelude.State.{M}
use soma_c.Common.{ReturnCode, success, err_invalid_config, Ptr}
use soma_c.Backend.{BackendImpl}
use soma_c.Foreign.JsonC.{JsonC}

-- `live` are the contexts that were allocated and not freed, each with its config, the oldest
-- first. calloc returns `next`, a new address, or NULL where `grants` says so.
pub record Heap (J : Type 0) : Type 0 where
  pub next : Ptr
  pub live : List (Ptr × J)
  pub grants : Ptr → Bool
  pub stdout : List String

module _ {J : Type 0} where
  abbrev pub find_ptr : Ptr → List (Ptr × J) → Option J
  find_ptr p [] = none
  find_ptr p ((q, j) ∷ cs) = if q == p then some j else find_ptr p cs

  abbrev pub erase_ptr : Ptr → List (Ptr × J) → List (Ptr × J)
  erase_ptr p [] = []
  erase_ptr p ((q, j) ∷ cs) = if q == p then cs else (q, j) ∷ erase_ptr p cs

  -- calloc of a dummy_context, and the write of its config.
  unfoldable pub new_context : J → M (Heap J) (ReturnCode × Ptr)
  new_context config m =
      if m.grants m.next
      then some (
        (success, m.next),
        record m { next = suc m.next; live = m.live ++ (m.next, config) ∷ [] },
      )
      else none

  -- The read of `context->config`, its release, and the free.
  unfoldable pub free_context : Ptr → M (Heap J) ReturnCode
  free_context p m = elim (find_ptr p m.live) [
    | none ↦ none
    | some config ↦ some (success, record m { live = erase_ptr p m.live })
  ]

  unfoldable pub dummy_close_collector : Ptr → M (Heap J) ReturnCode
  unfolding free_context
  dummy_close_collector context = free_context context

  unfoldable pub dummy_destroy_collector : Ptr → M (Heap J) ReturnCode
  unfolding free_context
  dummy_destroy_collector context = free_context context

  unfoldable pub dummy_say_hello : Ptr → M (Heap J) (Unit {0})
  dummy_say_hello context m =
      some (tt, record m { stdout = m.stdout ++ "Hello World from Dummy collector\n" ∷ [] })

  -- An overflow of `x+y` is undefined behaviour.
  unfoldable pub dummy_compute_sum : Ptr → ℤ → ℤ → M (Heap J) ℤ
  dummy_compute_sum context x y m = if fits_int32 (x +ℤ y) then some (x +ℤ y, m) else none

module _ {J : Type 0} ⦃json : JsonC J⦄ where
  -- The config that the text stands for; `none` is the parse error.
  abbrev pub read_config : Option String → Option J
  read_config none = some json.new_object
  read_config (some text) = json.parse text

  unfoldable pub dummy_create_collector : Option String → M (Heap J) (ReturnCode × Ptr)
  unfolding new_context
  dummy_create_collector config_str m = elim (read_config config_str) [
    | none ↦ some ((err_invalid_config, 0), m)
    | some config ↦ new_context config m
  ]

  unfoldable pub dummy_open_collector : Option String → M (Heap J) (ReturnCode × Ptr)
  unfolding new_context
  dummy_open_collector config_str m = elim (read_config config_str) [
    | none ↦ some ((err_invalid_config, 0), m)
    | some config ↦ new_context config m
  ]

  unfoldable pub dummy_backend : BackendImpl (Heap J)
  unfolding dummy_create_collector dummy_open_collector dummy_close_collector
      dummy_destroy_collector dummy_say_hello dummy_compute_sum
  dummy_backend = record {
    name = "dummy";
    create_collector = dummy_create_collector;
    open_collector = dummy_open_collector;
    close_collector = dummy_close_collector;
    destroy_collector = dummy_destroy_collector;
    hello = dummy_say_hello;
    sum = dummy_compute_sum;
  }
