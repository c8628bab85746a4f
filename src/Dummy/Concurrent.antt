-- ===== src/Dummy/Concurrent.antt =====
-- Handlers that interleave on a provider with the dummy backend, against the registry.
use mathlib.Core.List.{Perm}
use mathlib.Core.List.Perm
use soma_c.Prelude.{
  ◌≡◌, refl, ap, ◌∙◌, sym, String, Option, some, List, [], ◌∷◌, ◌++◌, map, map-append, arith, subst,
  All, Option-cases, ◌⊎◌, inl, inr,
}
use soma_c.Foreign.JsonC.{JsonC}
use soma_c.Foreign.UtHash.{UtHash}
use soma_c.Provider.State.{Provider}
use soma_c.Provider.Server.{Server, HandleCall}
use soma_c.Provider.Serve.{Request, handle}
use soma_c.Provider.Serve.Auth.{called}
use soma_c.Provider.Concurrent.{
  leaving, Thread, waiting, conclude, System, alone, start, Step, enter, call, Reach, here, next,
  body,
}
use soma_c.Provider.Concurrent.Bodies.{handle-body, handle-body_fault}
use soma_c.Provider.Concurrent.Order.{
  Reach-IsSerial, entered, Perm-enter, entered-call, entered-waiting,
}
use soma_c.Provider.Concurrent.Progress.{IsDone, waits, calls, IsDone-or-Unfinished, entered-IsDone}
use soma_c.Dummy.{Heap}
use soma_c.Dummy.Registry.{Registry, Reply, reply_of, respond_to, registry, IsOwned, IsServable}
use soma_c.Dummy.Serve.{handle-Serves}
use soma_c.Dummy.History.{and_reply, respond_all}

module _ {J T : Type 0} ⦃json : JsonC J⦄ ⦃h : UtHash (Heap J) T⦄ where
  -- What is known of the provider and the heap in between.
  abbrev pub IsOwning : Option String → Server (Heap J) T → Type 0
  IsOwning token s = IsOwned s × (s.provider.token ≡ token)

  -- Whatever order the handlers took so far, a request that still waits is servable, if the provider
  -- owns its contexts and has the token.
  abbrev pub AreServableThen : Provider (Heap J) T → Heap J → List Request → Option String → Type 0
  AreServableThen p w rs token =
      (t : System (Heap J) T)
      → Reach (start p w rs) t
      → IsOwning token (alone t.provider t.world)
      → (pre post : List Thread) (r : Request) → t.threads ≡ pre ++ waiting r ∷ post
      → IsServable (alone t.provider t.world) r

module _ {J T : Type 0} ⦃json : JsonC J⦄ ⦃h : UtHash (Heap J) T⦄ where
  pub same_calls-IsOwned :
      (s : Server (Heap J) T) (cs : List HandleCall) → IsOwned s → IsOwned (record s { calls = cs })
  same_calls-IsOwned s cs v = record {
    well_formed = v.well_formed;
    backend = v.backend;
    owns = v.owns;
    ascending = v.ascending;
  }

  handle-IsOwning :
      (token : Option String) (s : Server (Heap J) T) (r : Request) (u : Server (Heap J) T)
      → IsServable s r
      → IsOwning token s
      → s.calls ≡ []
      → handle r s ≡ some (tt, u)
      → ((reply_of u.calls, registry u) ≡ respond_to token r (registry s)) × IsOwning token u
  handle-IsOwning token s r u ok (v, same) fresh ran =
      let (t, cs, e, made, kept, replied, owned) = handle-Serves r s v ok in
      let one : t ≡ u = ground arith in
      let all : cs ≡ t.calls = sym (made ∙ ap (λ l. l ++ cs) fresh) in
      (
        subst (λ x. (reply_of x.calls, registry x) ≡ respond_to token r (registry s)) one
            (rw (← all, ← same) replied),
        subst (λ x. IsOwning token x) one (owned, kept ∙ same),
      )

module _ {J : Type 0} ⦃json : JsonC J⦄ where
  abbrev then_respond : Option String → Request → List Reply × Registry J → List Reply × Registry J
  then_respond token r (ps, reg) =
      (ps ++ (respond_to token r reg).0 ∷ [], (respond_to token r reg).1)

  -- The last request of a history.
  respond_all-snoc :
      (token : Option String) (rs : List Request) (r : Request) (reg : Registry J)
      → respond_all token (rs ++ r ∷ []) reg ≡ then_respond token r (respond_all token rs reg)
  respond_all-snoc token [] r reg = refl
  respond_all-snoc token (r' ∷ rs) r reg =
      ap (and_reply (respond_to token r' reg).0)
        (respond_all-snoc token rs r (respond_to token r' reg).1)

  responds-snoc :
      (token : Option String) (rs : List Request) (r : Request) (reg : Registry J) (ps : List Reply)
      (p : Reply) (mid last : Registry J)
      → (ps, mid) ≡ respond_all token rs reg
      → (p, last) ≡ respond_to token r mid
      → (ps ++ p ∷ [], last) ≡ respond_all token (rs ++ r ∷ []) reg
  responds-snoc token rs r reg ps p mid last e answer =
      ap (λ x. (ps ++ x.0 ∷ [], x.1)) answer
      ∙ ap (then_respond token r) e
      ∙ sym (respond_all-snoc token rs r reg)

module _ {J T : Type 0} ⦃json : JsonC J⦄ ⦃h : UtHash (Heap J) T⦄ where
  -- The handler between the others can make a step of its own.
  abbrev pub CanMove : System (Heap J) T → (pre post : List Thread) → Type 0
  CanMove t pre post =
      (moved : Thread) × (u : System (Heap J) T) × Step t u × (u.threads ≡ pre ++ moved ∷ post)

  can_enter :
      (t : System (Heap J) T) (pre post : List Thread) (r : Request)
      → t.threads ≡ pre ++ waiting r ∷ post
      → IsOwned (alone t.provider t.world)
      → IsServable (alone t.provider t.world) r
      → CanMove t pre post
  can_enter t pre post r at owned ok = elim (Option-cases (body r (alone t.provider t.world))) [
    | inl fault ↦
        let (u, cs, ran, _, _, _, _) = handle-Serves r (alone t.provider t.world) owned ok in
        let none_ran = handle-body_fault r (alone t.provider t.world) fault in absurd (ground arith)
    | inr ((o, u), ran) ↦ (_, _, enter pre post r o u at ran refl, refl)
  ]

  -- In some order, the registry answers the entered requests as their handlers do, and comes to the
  -- same state.
  pub record IsAnswered (token : Option String) (reg : Registry J) (t : System (Heap J) T)
      : Type 0 where
    pub history : List (Request × List HandleCall)
    pub perm : Perm (entered t.threads) history
    pub responds :
        (map (λ e. reply_of e.1) history, registry (alone t.provider t.world))
        ≡ respond_all token (map (λ e. e.0) history) reg
    pub owning : IsOwning token (alone t.provider t.world)

  Step-IsAnswered :
      (token : Option String) (reg : Registry J) {s t : System (Heap J) T}
      → ((pre post : List Thread) (r : Request)
          → s.threads ≡ pre ++ waiting r ∷ post
          → IsServable (alone s.provider s.world) r)
      → Step s t
      → IsAnswered token reg s
      → IsAnswered token reg t
  Step-IsAnswered token reg {s} ok (enter pre post r o u at ran e) v =
      let (whole, (_, (fresh, _))) = handle-body r (alone s.provider s.world) u o ran in
      let (answer, owned) =
        handle-IsOwning token (alone s.provider s.world) r (called u (conclude o))
          (ok pre post r at) v.owning refl whole in
      let all : u.calls ++ conclude o ≡ conclude o = ap (λ l. l ++ conclude o) fresh in
      rw e (record {
        history = v.history ++ (r, conclude o) ∷ [];
        perm = Perm-enter pre post r (conclude o) v.history (rw at at v.perm);
        responds = rw (map-append (λ x. reply_of x.1) v.history ((r, conclude o) ∷ [])) (
            rw (map-append (λ x. x.0) v.history ((r, conclude o) ∷ [])) (
              responds-snoc token (map (λ x. x.0) v.history) r reg
                (map (λ x. reply_of x.1) v.history) (reply_of (conclude o))
                (registry (alone s.provider s.world)) (registry (alone u.provider u.world))
                v.responds (rw all at answer)));
        owning = (same_calls-IsOwned (called u (conclude o)) [] owned.0, owned.1);
      })
  Step-IsAnswered token reg {s} ok (call pre post r made c todo at e) v = rw e (record {
    history = v.history;
    perm = rw (entered-call pre post r made c todo) (rw at at v.perm);
    responds = v.responds;
    owning = v.owning;
  })

  -- Handlers that give way in Margo alone, on a provider with the dummy backend, which interleave in
  -- any order: if the provider owns its contexts at first and each request is servable when its
  -- handler goes on, then at any time the replies that the handlers made or are about to make, and the
  -- collectors and their configurations, are those of the registry when it answers the requests one
  -- after another in some order; and the contexts are those of the collectors.
  pub Reach-IsAnswered :
      (token : Option String) (p : Provider (Heap J) T) (w : Heap J) (rs : List Request)
      {t : System (Heap J) T}
      → IsOwning token (alone p w)
      → AreServableThen p w rs token
      → Reach (start p w rs) t
      → IsAnswered token (registry (alone p w)) t
  Reach-IsAnswered token p w rs v ok here = record {
    history = [];
    perm = rw (entered-waiting rs) (Perm.refl []);
    responds = refl;
    owning = v;
  }
  Reach-IsAnswered token p w rs v ok (next {t} reached st) =
      let before = Reach-IsAnswered token p w rs v ok reached in
      Step-IsAnswered token (registry (alone p w)) (ok t reached before.owning) st before

  can_move :
      (t : System (Heap J) T) (pre post : List Thread) (th : Thread)
      → t.threads ≡ pre ++ th ∷ post
      → IsOwned (alone t.provider t.world)
      → ((r : Request) → th ≡ waiting r → IsServable (alone t.provider t.world) r)
      → IsDone th ⊎ CanMove t pre post
  can_move t pre post (waiting r) at owned ok = inr (can_enter t pre post r at owned (ok r refl))
  can_move t pre post (leaving r made []) at owned ok = inl tt
  can_move t pre post (leaving r made (c ∷ todo)) at owned ok =
      inr (_, _, call pre post r made c todo at refl, refl)

  -- Handlers that give way in Margo alone, on a provider with the dummy backend that owns its contexts at
  -- first, each request servable when its handler goes on: no handler faults and none is stuck, but each
  -- has made its last call or can make a step of its own; and either all have made their last call, and
  -- every request was entered, or some handler can make a step.
  pub Reach-moves :
      (token : Option String) (p : Provider (Heap J) T) (w : Heap J) (rs : List Request)
      {t : System (Heap J) T} (pre post : List Thread) (th : Thread)
      → IsOwning token (alone p w)
      → AreServableThen p w rs token
      → Reach (start p w rs) t
      → t.threads ≡ pre ++ th ∷ post
      → (IsDone th ⊎ CanMove t pre post)
        × ((All IsDone t.threads × (map (λ e. e.0) (entered t.threads) ≡ rs))
            ⊎ (u : System (Heap J) T) × Step t u)
  Reach-moves token p w rs {t} pre post th v ok reached at =
      let owned = (Reach-IsAnswered token p w rs v ok reached).owning in
      (
        can_move t pre post th at owned.0
            (λ r e. ok t reached owned pre post r (subst (λ x. t.threads ≡ pre ++ x ∷ post) e at)),
        elim (IsDone-or-Unfinished t.threads) [
          | inl done ↦
              inl (done, entered-IsDone t.threads done ∙ (Reach-IsSerial p w rs reached).requests)
          | inr (calls pre' post' r made c todo at') ↦
              inr (_, call pre' post' r made c todo at' refl)
          | inr (waits pre' post' r at') ↦
              let (_, u, st, _) =
                can_enter t pre' post' r at' owned.0 (ok t reached owned pre' post' r at') in
              inr (u, st)
        ],
      )
