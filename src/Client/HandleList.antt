-- ===== src/Client/HandleList.antt =====
-- Handles by their address, in a list.
use soma_c.Prelude.{◌≡◌, refl, none, some, List, [], ◌∷◌, arith}
use soma_c.Common.{Ptr}
use soma_c.Client.{CollectorHandle, find_handle, put_handle, erase_handle}

-- Each key of the list stands in it once.
abbrev pub IsKeyedHandles : List (Ptr × CollectorHandle) → Type 0
IsKeyedHandles [] = Unit
IsKeyedHandles ((p, rh) ∷ hs) = (find_handle p hs ≡ none) × IsKeyedHandles hs

pub find_handle-put_handle :
    (p : Ptr) (new rh : CollectorHandle) (hs : List (Ptr × CollectorHandle))
    → find_handle p hs ≡ some rh
    → find_handle p (put_handle p new hs) ≡ some new
find_handle-put_handle p new rh [] e = cc
find_handle-put_handle p new rh ((k, d) ∷ hs) e = ground (arith, find_handle-put_handle p new rh hs)

pub put_handle-put_handle :
    (p : Ptr) (new newer : CollectorHandle) (hs : List (Ptr × CollectorHandle))
    → put_handle p newer (put_handle p new hs) ≡ put_handle p newer hs
put_handle-put_handle p new newer [] = refl
put_handle-put_handle p new newer ((k, d) ∷ hs) =
    ground (arith, put_handle-put_handle p new newer hs)

pub put_handle_same :
    (p : Ptr) (rh : CollectorHandle) (hs : List (Ptr × CollectorHandle))
    → find_handle p hs ≡ some rh
    → put_handle p rh hs ≡ hs
put_handle_same p rh [] e = refl
put_handle_same p rh ((k, d) ∷ hs) e = ground (arith, put_handle_same p rh hs)

pub erase_handle-put_handle :
    (p : Ptr) (new : CollectorHandle) (hs : List (Ptr × CollectorHandle))
    → erase_handle p (put_handle p new hs) ≡ erase_handle p hs
erase_handle-put_handle p new [] = refl
erase_handle-put_handle p new ((k, d) ∷ hs) = ground (arith, erase_handle-put_handle p new hs)

pub find_handle-erase_handle :
    (p : Ptr) (hs : List (Ptr × CollectorHandle))
    → IsKeyedHandles hs
    → find_handle p (erase_handle p hs) ≡ none
find_handle-erase_handle p [] v = refl
find_handle-erase_handle p ((k, d) ∷ hs) v = ground (arith, find_handle-erase_handle p hs v.1)
