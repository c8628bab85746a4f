-- ===== src/Backend.antt =====
-- include/soma/soma-backend.h: the table of functions of a backend. `W` is what backends keep of
-- their own: the memory of their contexts, their output.
use soma_c.Prelude.{String, Option}
use soma_c.Prelude.Int.{ℤ}
use soma_c.Prelude.State.{M}
use soma_c.Common.{ReturnCode, Ptr}

-- struct soma_backend_impl. What a function writes through `void** context` is returned beside the
-- code; a `const char*` may be NULL.
pub record BackendImpl (W : Type 0) : Type 0 where
  pub name : String
  pub create_collector : Option String → M W (ReturnCode × Ptr)
  pub open_collector : Option String → M W (ReturnCode × Ptr)
  pub close_collector : Ptr → M W ReturnCode
  pub destroy_collector : Ptr → M W ReturnCode
  pub hello : Ptr → M W (Unit {0})
  pub sum : Ptr → ℤ → ℤ → M W ℤ
