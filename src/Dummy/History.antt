-- ===== src/Dummy/History.antt =====
-- Histories of requests to a provider with the dummy backend, and its end.
use soma_c.Prelude.{
  true, ◌≡◌, refl, ap, ◌∙◌, sym, Option, some, List, [], ◌∷◌, ◌++◌, map, arith, append-nil,
  append_assoc, String, ◌==◌,
}
use soma_c.Common.{Ptr}
use soma_c.Foreign.JsonC.{JsonC}
use soma_c.Foreign.UtHash.{UtHash}
use soma_c.Provider.State.{Collector}
use soma_c.Provider.Server.{Server, HandleCall}
use soma_c.Provider.Collectors.{close_each, remove_all_collectors}
use soma_c.Provider.Collectors.Items.{collectors_of}
use soma_c.Provider.Serve.{Request, handle, serve}
use soma_c.Dummy.{Heap, erase_ptr, dummy_backend, dummy_close_collector, free_context}
use soma_c.Dummy.Owned.{Owns}
use soma_c.Dummy.Registry.{Registry, Reply, reply_of, respond_to, registry, IsOwned, IsServable}
use soma_c.Dummy.Serve.{handle-Serves}

abbrev pub concat : {A : Type 0} → List (List A) → List A
concat [] = []
concat (xs ∷ xss) = xs ++ concat xss

module _ {J : Type 0} ⦃json : JsonC J⦄ where
  abbrev pub and_reply : Reply → List Reply × Registry J → List Reply × Registry J
  and_reply p (ps, reg) = (p ∷ ps, reg)

  -- The registry's replies to a history, and its state after it.
  abbrev pub respond_all : Option String → List Request → Registry J → List Reply × Registry J
  respond_all secret [] reg = ([], reg)
  respond_all secret (r ∷ rs) reg =
      and_reply (respond_to secret r reg).0 (respond_all secret rs (respond_to secret r reg).1)

module _ {J T : Type 0} ⦃json : JsonC J⦄ ⦃h : UtHash (Heap J) T⦄ where
  -- Each request of the history is servable when its turn comes.
  abbrev pub AreServable : Server (Heap J) T → List Request → Type 0
  AreServable s [] = Unit
  AreServable s (r ∷ rs) =
      IsServable s r × ((t : Server (Heap J) T) → handle r s ≡ some (tt, t) → AreServable t rs)

  -- A history of servable requests is served to its end without undefined behaviour, with the
  -- registry's replies, one for each request, and leaves the registry's state; the allocated
  -- contexts are those of the collectors then.
  pub serve-respond_all :
      (rs : List Request) (s : Server (Heap J) T)
      → IsOwned s
      → AreServable s rs
      → (t : Server (Heap J) T) × (css : List (List HandleCall)) × (serve rs s ≡ some (tt, t))
        × (t.calls ≡ s.calls ++ concat css)
        × ((map reply_of css, registry t) ≡ respond_all s.provider.token rs (registry s))
        × IsOwned t
  unfolding serve
  serve-respond_all [] s v ok = (s, [], refl, sym (append-nil s.calls), refl, v)
  serve-respond_all (r ∷ rs) s v ok =
      let (u, cs, e1, c1, k1, r1, v1) = handle-Serves r s v ok.0 in
      let (t, css, e2, c2, r2, v2) = serve-respond_all rs u v1 (ok.1 u e1) in
      (
        t,
        cs ∷ css,
        ground (arith, e1, e2),
        c2 ∙ rw c1 (append_assoc s.calls cs (concat css)),
        ap (and_reply (reply_of cs)) r2
            ∙ (λ i. and_reply (r1 i).0 (respond_all (k1 i) rs (r1 i).1)),
        v2,
      )

  close_each-frees :
      (rs : List (Collector (Heap J))) (ls : List (Ptr × J)) (s : Server (Heap J) T)
      → h.items s.provider.collectors ≡ rs
      → s.world.live ≡ ls
      → Owns rs ls
      → (t : Server (Heap J) T) × (close_each rs s ≡ some (tt, t))
        × (h.items t.provider.collectors ≡ [])
        × (t.world.live ≡ [])
        × (t.calls ≡ s.calls)
  unfolding close_each dummy_backend dummy_close_collector free_context
  close_each-frees [] [] s e l o = (s, refl, e, l, refl)
  close_each-frees [] (x ∷ ls) s e l o = absurd o
  close_each-frees (r ∷ rs) [] s e l o = absurd o
  close_each-frees (r ∷ rs) ((p, j) ∷ ls) s e l (at, fn, o) =
      let hit : (p == r.ctx) ≡ true = ground arith in
      let here : h.find s.provider.collectors r.id ≡ some r = rw (h.find-items, e) (ground arith) in
      let left : h.items (h.del s.provider.collectors r) ≡ rs =
        rw (h.items-del s.provider.collectors r here, e) (ground arith) in
      let u : Server (Heap J) T = record s {
        provider = record s.provider { collectors = h.del s.provider.collectors r };
        world = record s.world { live = erase_ptr r.ctx s.world.live };
      } in
      let (t, e1, items, live, calls) = close_each-frees rs ls u left (rw l (rw hit refl)) o in
      (t, ground (arith, ap (λ f. f.close_collector r.ctx s.world) fn), items, live, calls)

  -- remove_all_collectors of a server that owns its contexts closes every collector once: it meets no
  -- dangling context, and leaves no collector and no allocated context.
  pub remove_all_collectors-frees :
      (s : Server (Heap J) T)
      → IsOwned s
      → (t : Server (Heap J) T) × (remove_all_collectors s ≡ some (tt, t))
        × (collectors_of t.provider ≡ [])
        × (t.provider.num_collectors ≡ 0)
        × (t.world.live ≡ [])
        × (t.calls ≡ s.calls)
  unfolding remove_all_collectors
  remove_all_collectors-frees s v =
      let (t, e, items, live, calls) =
        close_each-frees (collectors_of s.provider) s.world.live s refl refl v.owns in
      (
        record t { provider = record t.provider { num_collectors = 0 } },
        ground (arith, e),
        items,
        refl,
        live,
        calls,
      )
