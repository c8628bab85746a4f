-- ===== src/Provider/Concurrent/Order.antt =====
-- However the handlers interleave, they act as if they were served one after another.
use mathlib.Core.List.{Perm, perm_middle, perm_append_singleton}
use mathlib.Core.List.Perm
use soma_c.Prelude.{
  ◌≡◌, refl, ap, ◌∙◌, sym, some, List, [], ◌∷◌, ◌++◌, map, append_assoc, map-append, All, subst,
}
use soma_c.Foreign.UtHash.{UtHash}
use soma_c.Provider.State.{Provider}
use soma_c.Provider.Server.{Server, HandleCall}
use soma_c.Provider.Serve.{Request, handle}
use soma_c.Provider.Serve.Auth.{called}
use soma_c.Provider.Concurrent.{
  Thread, waiting, leaving, request, conclude, System, alone, start, Step, enter, call, Reach, here,
  next,
}
use soma_c.Provider.Concurrent.Bodies.{handle-body}

-- The requests that were entered, each with all calls of its handler.
abbrev pub entered : List Thread → List (Request × List HandleCall)
entered [] = []
entered (waiting r ∷ ts) = entered ts
entered (leaving r made todo ∷ ts) = (r, made ++ todo) ∷ entered ts

entered-append : (ts us : List Thread) → entered (ts ++ us) ≡ entered ts ++ entered us
entered-append [] us = refl
entered-append (waiting r ∷ ts) us = entered-append ts us
entered-append (leaving r made todo ∷ ts) us =
    ap (λ l. (r, made ++ todo) ∷ l) (entered-append ts us)

pub entered-waiting : (rs : List Request) → entered (map waiting rs) ≡ []
entered-waiting [] = refl
entered-waiting (r ∷ rs) = entered-waiting rs

request-waiting : (rs : List Request) → map request (map waiting rs) ≡ rs
request-waiting [] = refl
request-waiting (r ∷ rs) = ap (λ l. r ∷ l) (request-waiting rs)

perm-snoc :
    {A : Type 0} (xs ys zs : List A) (a : A)
    → Perm (xs ++ ys) zs
    → Perm (xs ++ a ∷ ys) (zs ++ a ∷ [])
perm-snoc xs ys zs a p =
    Perm.trans (perm_middle xs ys)
      (Perm.trans (Perm.cons a p) (Perm.symm (perm_append_singleton a zs)))

-- A handler that enters comes last; one that makes a call stays what it is.
pub Perm-enter :
    (pre post : List Thread) (r : Request) (cs : List HandleCall)
    (hist : List (Request × List HandleCall))
    → Perm (entered (pre ++ waiting r ∷ post)) hist
    → Perm (entered (pre ++ leaving r [] cs ∷ post)) (hist ++ (r, cs) ∷ [])
Perm-enter pre post r cs hist p = rw (entered-append pre (leaving r [] cs ∷ post)) (
    perm-snoc (entered pre) (entered post) hist (r, cs)
      (rw (entered-append pre (waiting r ∷ post)) at p))

pub entered-call :
    (pre post : List Thread) (r : Request) (made : List HandleCall) (c : HandleCall)
    (todo : List HandleCall)
    → entered (pre ++ leaving r (made ++ c ∷ []) todo ∷ post)
      ≡ entered (pre ++ leaving r made (c ∷ todo) ∷ post)
entered-call pre post r made c todo =
    rw
      (
        entered-append pre (leaving r (made ++ c ∷ []) todo ∷ post),
        entered-append pre (leaving r made (c ∷ todo) ∷ post),
        append_assoc made (c ∷ []) todo,
      )
      refl

waiting-All :
    (P : Request → Type 0) (pre post : List Thread) (r : Request)
    → All P (map request (pre ++ waiting r ∷ post))
    → P r
waiting-All P [] post r (p, _) = p
waiting-All P (t ∷ pre) post r (_, ps) = waiting-All P pre post r ps

module _ {W T : Type 0} ⦃h : UtHash W T⦄ where
  -- The requests are handled one after another, each with its own RPC handle, with these calls.
  abbrev pub Serial :
      Provider W T → W → List (Request × List HandleCall) → Provider W T → W → Type 0
  Serial p w [] q v = (p ≡ q) × (w ≡ v)
  Serial p w ((r, cs) ∷ hist) q v =
      (u : Server W T) × (handle r (alone p w) ≡ some (tt, u))
      × (u.calls ≡ cs)
      × Serial u.provider u.world hist q v

  Serial-snoc :
      (p : Provider W T) (w : W) (hist : List (Request × List HandleCall)) (q : Provider W T)
      (v : W) (r : Request) (cs : List HandleCall) (u : Server W T)
      → Serial p w hist q v
      → handle r (alone q v) ≡ some (tt, u)
      → u.calls ≡ cs
      → Serial p w (hist ++ (r, cs) ∷ []) u.provider u.world
  Serial-snoc p w [] q v r cs u (e, f) ran made = (u, rw (e, f) ran, made, (refl, refl))
  Serial-snoc p w ((r', cs') ∷ hist) q v r cs u (t, first, calls, rest) ran made =
      (t, first, calls, Serial-snoc t.provider t.world hist q v r cs u rest ran made)

  -- Thread i has request i of the list, and in some order, serving the entered requests one after
  -- another has the effects and the calls of the handlers.
  pub record IsSerial (p : Provider W T) (w : W) (rs : List Request) (t : System W T) : Type 0 where
    pub requests : map request t.threads ≡ rs
    pub history : List (Request × List HandleCall)
    pub perm : Perm (entered t.threads) history
    pub serial : Serial p w history t.provider t.world

  Step-IsSerial :
      (p : Provider W T) (w : W) (rs : List Request) {s t : System W T}
      → Step s t
      → IsSerial p w rs s
      → IsSerial p w rs t
  Step-IsSerial p w rs {s} (enter pre post r o u at ran e) v =
      let (whole, (_, (calls, _))) = handle-body r (alone s.provider s.world) u o ran in
      let kept : map request (pre ++ waiting r ∷ post) ≡ rs = rw at at v.requests in
      rw e (record {
        requests =
            rw (map-append request pre (leaving r [] (conclude o) ∷ post))
              (rw (map-append request pre (waiting r ∷ post)) at kept);
        history = v.history ++ (r, conclude o) ∷ [];
        perm = Perm-enter pre post r (conclude o) v.history (rw at at v.perm);
        serial =
            Serial-snoc p w v.history s.provider s.world r (conclude o) (called u (conclude o))
              v.serial whole (ap (λ l. l ++ conclude o) calls);
      })
  Step-IsSerial p w rs {s} (call pre post r made c todo at e) v =
      let kept : map request (pre ++ leaving r made (c ∷ todo) ∷ post) ≡ rs = rw at at v.requests in
      rw e (record {
        requests =
            rw (map-append request pre (leaving r (made ++ c ∷ []) todo ∷ post))
              (rw (map-append request pre (leaving r made (c ∷ todo) ∷ post)) at kept);
        history = v.history;
        perm = rw (entered-call pre post r made c todo) (rw at at v.perm);
        serial = v.serial;
      })

  -- Whatever the backends do: when handlers that give way in Margo alone interleave in any order, then
  -- each keeps its request, and what they did to the provider and the backends' world, and the calls
  -- that each has made or is about to make, are those of serving the entered requests one after another
  -- in some order.
  pub Reach-IsSerial :
      (p : Provider W T) (w : W) (rs : List Request) {t : System W T}
      → Reach (start p w rs) t
      → IsSerial p w rs t
  Reach-IsSerial p w rs here = record {
    requests = request-waiting rs;
    history = [];
    perm = rw (entered-waiting rs) (Perm.refl []);
    serial = (refl, refl);
  }
  Reach-IsSerial p w rs (next reached st) = Step-IsSerial p w rs st (Reach-IsSerial p w rs reached)

  -- What holds of all requests holds of one that still waits.
  pub Reach-All :
      (P : Request → Type 0) (p : Provider W T) (w : W) (rs : List Request) {t : System W T}
      → Reach (start p w rs) t
      → All P rs
      → (pre post : List Thread) (r : Request) → t.threads ≡ pre ++ waiting r ∷ post
      → P r
  Reach-All P p w rs {t} reached all pre post r at =
      let requests = (Reach-IsSerial p w rs reached).requests in
      waiting-All P pre post r (subst (λ l. All P l) (sym requests ∙ ap (map request) at) all)
