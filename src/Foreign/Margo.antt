-- ===== src/Foreign/Margo.antt =====
-- Margo, as src/provider.c, src/admin.c and src/client.c register RPCs with it. `I` is the state of
-- a Margo instance; an RPC is known by its name and a provider id.
use soma_c.Prelude.{
  ℕ, ◌≡◌, String, str_eq, Bool, false, ◌&&◌, Option, none, some, List, [], ◌∷◌, ◌==◌, if◌then◌else◌,
}
use soma_c.Common.{Ptr}
use soma_c.Types.Layouts.{Signature}

-- Callbacks without the first of an owner.
abbrev pub without_owner : Ptr → List Ptr → List Ptr
without_owner p [] = []
without_owner p (q ∷ qs) = if q == p then qs else q ∷ without_owner p qs

pub record Margo (I : Type 0) : Type 0 where
  -- margo_is_listening
  pub is_listening : I → Bool
  -- margo_provider_registered_name: the id, if the RPC is registered
  pub registered : I → String → ℕ → Option ℕ
  -- MARGO_REGISTER_PROVIDER with a pool: the id of the RPC
  pub register : I → String → Signature → ℕ → (pool : ℕ) → ℕ × I
  -- the types that the RPC is registered with
  pub signature : I → String → ℕ → Option Signature
  -- margo_register_data and margo_registered_data
  pub register_data : I → ℕ → Ptr → I
  pub registered_data : I → ℕ → Option Ptr
  -- margo_registered_disable_response
  pub disable_response : I → ℕ → I
  -- margo_deregister
  pub deregister : I → ℕ → I
  -- margo_provider_push_finalize_callback and margo_provider_pop_finalize_callback
  pub push_finalize : I → Ptr → I
  pub pop_finalize : I → Ptr → I
  -- The owners of the callbacks that margo_finalize will run, the last pushed first.
  pub callbacks : I → List Ptr
  -- The RPC that is registered is found by its id, and no other changes.
  pub registered-register :
      (i : I) (n m : String) (g : Signature) (p q pool : ℕ)
      → registered (register i n g p pool).1 m q
        ≡ (if str_eq n m && (p == q) then some (register i n g p pool).0 else registered i m q)
  pub signature-register :
      (i : I) (n m : String) (g : Signature) (p q pool : ℕ)
      → signature (register i n g p pool).1 m q
        ≡ (if str_eq n m && (p == q) then some g else signature i m q)
  -- An id that is deregistered is no RPC's, and no other changes.
  pub registered-deregister :
      (i : I) (id : ℕ) (m : String) (q : ℕ)
      → registered (deregister i id) m q
        ≡ elim (registered i m q) [ none ↦ none | some k ↦ if k == id then none else some k ]
  pub registered-register_data :
      (i : I) (id : ℕ) (p : Ptr) (m : String) (q : ℕ)
      → registered (register_data i id p) m q ≡ registered i m q
  pub registered-disable_response :
      (i : I) (id : ℕ) (m : String) (q : ℕ)
      → registered (disable_response i id) m q ≡ registered i m q
  -- The types of the registered RPCs stay.
  pub signature-register_data :
      (i : I) (id : ℕ) (p : Ptr) (m : String) (q : ℕ)
      → signature (register_data i id p) m q ≡ signature i m q
  pub signature-disable_response :
      (i : I) (id : ℕ) (m : String) (q : ℕ)
      → signature (disable_response i id) m q ≡ signature i m q
  pub signature-push_finalize :
      (i : I) (p : Ptr) (m : String) (q : ℕ) → signature (push_finalize i p) m q ≡ signature i m q
  pub registered-push_finalize :
      (i : I) (p : Ptr) (m : String) (q : ℕ) → registered (push_finalize i p) m q ≡ registered i m q
  pub registered-pop_finalize :
      (i : I) (p : Ptr) (m : String) (q : ℕ) → registered (pop_finalize i p) m q ≡ registered i m q
  -- The data of an id is what was registered last; registering another id leaves it, and an id that is
  -- deregistered has none.
  pub registered_data-register_data :
      (i : I) (id : ℕ) (p : Ptr) (k : ℕ)
      → registered_data (register_data i id p) k ≡ (if k == id then some p else registered_data i k)
  pub registered_data-register :
      (i : I) (n : String) (g : Signature) (p pool k : ℕ)
      → (k == (register i n g p pool).0) ≡ false
      → registered_data (register i n g p pool).1 k ≡ registered_data i k
  pub registered_data-deregister :
      (i : I) (id k : ℕ)
      → registered_data (deregister i id) k ≡ (if k == id then none else registered_data i k)
  pub registered_data-disable_response :
      (i : I) (id k : ℕ) → registered_data (disable_response i id) k ≡ registered_data i k
  pub registered_data-push_finalize :
      (i : I) (p : Ptr) (k : ℕ) → registered_data (push_finalize i p) k ≡ registered_data i k
  -- A callback is pushed onto the others; the last one of the owner is popped.
  pub callbacks-push_finalize : (i : I) (p : Ptr) → callbacks (push_finalize i p) ≡ p ∷ callbacks i
  pub callbacks-pop_finalize :
      (i : I) (p : Ptr) → callbacks (pop_finalize i p) ≡ without_owner p (callbacks i)
  pub callbacks-register :
      (i : I) (n : String) (g : Signature) (p pool : ℕ)
      → callbacks (register i n g p pool).1 ≡ callbacks i
  pub callbacks-register_data :
      (i : I) (id : ℕ) (p : Ptr) → callbacks (register_data i id p) ≡ callbacks i
  pub callbacks-disable_response :
      (i : I) (id : ℕ) → callbacks (disable_response i id) ≡ callbacks i
  pub callbacks-deregister : (i : I) (id : ℕ) → callbacks (deregister i id) ≡ callbacks i
  pub listening-register :
      (i : I) (n : String) (g : Signature) (p pool : ℕ)
      → is_listening (register i n g p pool).1 ≡ is_listening i
  pub listening-register_data :
      (i : I) (id : ℕ) (p : Ptr) → is_listening (register_data i id p) ≡ is_listening i
  pub listening-disable_response :
      (i : I) (id : ℕ) → is_listening (disable_response i id) ≡ is_listening i
  pub listening-deregister : (i : I) (id : ℕ) → is_listening (deregister i id) ≡ is_listening i
  pub listening-push_finalize :
      (i : I) (p : Ptr) → is_listening (push_finalize i p) ≡ is_listening i
  pub listening-pop_finalize : (i : I) (p : Ptr) → is_listening (pop_finalize i p) ≡ is_listening i
