-- ===== src/Foreign/JsonC.antt =====
-- json-c, as src/dummy/dummy-backend.c uses it: a tokener reads a text, NULL (`none`) when it is no
-- complete JSON value, and json_object_new_object makes the empty object.
use soma_c.Prelude.{String, Option}

pub record JsonC (J : Type 0) : Type 0 where
  pub parse : String → Option J
  pub new_object : J
