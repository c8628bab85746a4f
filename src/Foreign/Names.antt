-- ===== src/Foreign/Names.antt =====
-- Margo, as src/client.c and src/admin.c register their RPCs with it: by name, without a handler.
use soma_c.Prelude.{ℕ, ◌≡◌, String, str_eq, Option, some, if◌then◌else◌}
use soma_c.Types.Layouts.{Signature}

pub record Names (I : Type 0) : Type 0 where
  -- margo_registered_name: `none` where the flag is false. It then writes no id.
  pub registered_name : I → String → Option ℕ
  -- MARGO_REGISTER, with the id that it returns
  pub register : I → String → Signature → ℕ × I
  -- the types that the RPC is registered with
  pub signature : I → String → Option Signature
  -- margo_registered_disable_response
  pub disable_response : I → ℕ → I
  -- The name that is registered is found, and no other changes.
  pub registered_name-register :
      (i : I) (n m : String) (g : Signature)
      → registered_name (register i n g).1 m
        ≡ (if str_eq n m then some (register i n g).0 else registered_name i m)
  pub signature-register :
      (i : I) (n m : String) (g : Signature)
      → signature (register i n g).1 m ≡ (if str_eq n m then some g else signature i m)
  pub signature-disable_response :
      (i : I) (id : ℕ) (m : String) → signature (disable_response i id) m ≡ signature i m
  pub registered_name-disable_response :
      (i : I) (id : ℕ) (m : String)
      → registered_name (disable_response i id) m ≡ registered_name i m
