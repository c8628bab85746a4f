-- ===== src/Tests/Concurrent.antt =====
-- Two handlers that destroy one collector at the same time.
use soma_c.Prelude.{
  ℕ, String, str_eq, Option, none, ◌==◌, if◌then◌else◌, ◌≡◌, refl, sym, subst, some, List, [], ◌∷◌,
  All, map, ◌⊎◌,
}
use soma_c.Common.{success, err_invalid_collector}
use soma_c.Provider.Server.{Response, respond, free_input, destroy, close_out}
use soma_c.Provider.Collectors.{check_token, find_collector, remove_collector, unlink_collector}
use soma_c.Provider.Handlers.{destroy_body}
use soma_c.Provider.Serve.{Request}
use soma_c.Provider.Serve.Auth.{answer}
use soma_c.Provider.Concurrent.{
  waiting, leaving, System, alone, start, Step, enter, call, Reach, here, next, body,
}
use soma_c.Provider.Concurrent.Order.{entered, IsSerial, Reach-IsSerial, Reach-All}
use soma_c.Provider.Concurrent.Progress.{IsDone}
use soma_c.Dummy.{dummy_backend, dummy_destroy_collector, free_context}
use soma_c.Dummy.Registry.{registry, IsServable}
use soma_c.Dummy.Concurrent.{AreServableThen, IsAnswered, CanMove, Reach-IsAnswered, Reach-moves}
use soma_c.Provider.Lifecycle.{provider_destroy}
use soma_c.Provider.Lifecycle.Registration.{IsRegistered}
use soma_c.Provider.Lifecycle.Destruction.{IsUnregistered}
use soma_c.EndToEnd.Shutdown.{provider_destroy-Reach}
use soma_c.Tests.Instances.{list_hash, text_json, Table, table_margo}
use soma_c.Tests.Servers.{
  World, Collectors, provider, server, server-IsOwned, sent-IsSendable, destroy_7, destroyed,
}

abbrev twice : List Request
twice = destroy_7 "secret" ∷ destroy_7 "secret" ∷ []

abbrev gone : Response
gone = close_out (record { ret = err_invalid_collector })

abbrev done : Response
done = close_out (record { ret = success })

-- The second handler went on, and has responded; the first has found no collector.
abbrev raced : System World Collectors
raced = record {
  provider = destroyed.provider;
  world = destroyed.world;
  threads =
      leaving (destroy_7 "secret") [] (answer gone)
      ∷ leaving (destroy_7 "secret") (respond done ∷ []) (free_input ∷ destroy ∷ [])
      ∷ [];
}

first_body :
    body (destroy_7 "secret") (alone provider server.world)
    ≡ some (some done, alone destroyed.provider destroyed.world)
unfolding body destroy_body check_token find_collector remove_collector unlink_collector
    dummy_backend dummy_destroy_collector free_context
first_body = refl

second_body :
    body (destroy_7 "secret") (alone destroyed.provider destroyed.world)
    ≡ some (some gone, alone destroyed.provider destroyed.world)
unfolding body destroy_body check_token find_collector
second_body = refl

abbrev race : Reach (start provider server.world twice) raced
race =
    next
      (next
        (next here (
          enter (waiting (destroy_7 "secret") ∷ []) [] (destroy_7 "secret") (some done)
            (alone destroyed.provider destroyed.world) refl first_body refl))
        (call (waiting (destroy_7 "secret") ∷ []) [] (destroy_7 "secret") [] (respond done)
          (free_input ∷ destroy ∷ []) refl refl))
      (enter [] (leaving (destroy_7 "secret") (respond done ∷ []) (free_input ∷ destroy ∷ []) ∷ [])
        (destroy_7 "secret") (some gone) (alone destroyed.provider destroyed.world) refl second_body
        refl)

Reach-IsSerial_example : IsSerial provider server.world twice raced
Reach-IsSerial_example = Reach-IsSerial provider server.world twice race

twice-AreServableThen : AreServableThen provider server.world twice (some "secret")
twice-AreServableThen t reached (_, same) pre post r at =
    let one : r ≡ destroy_7 "secret" =
      Reach-All (λ x. x ≡ destroy_7 "secret") provider server.world twice reached (refl, (refl, tt))
        pre post r at in
    subst (λ x. IsServable (alone t.provider t.world) x) (sym one)
      (sent-IsSendable t.provider.token "secret")

Reach-IsAnswered_example : IsAnswered (some "secret") (registry server) raced
Reach-IsAnswered_example =
    Reach-IsAnswered (some "secret") provider server.world twice (server-IsOwned, refl)
      twice-AreServableThen race

Reach-moves_example :
    (IsDone (leaving (destroy_7 "secret") [] (answer gone))
      ⊎ CanMove raced []
          (leaving (destroy_7 "secret") (respond done ∷ []) (free_input ∷ destroy ∷ []) ∷ []))
    × ((All IsDone raced.threads × (map (λ e. e.0) (entered raced.threads) ≡ twice))
        ⊎ (u : System World Collectors) × Step raced u)
Reach-moves_example =
    Reach-moves (some "secret") provider server.world twice []
      (leaving (destroy_7 "secret") (respond done ∷ []) (free_input ∷ destroy ∷ []) ∷ [])
      (leaving (destroy_7 "secret") [] (answer gone)) (server-IsOwned, refl) twice-AreServableThen
      race refl

-- An instance with the RPCs of the provider.
abbrev ids : String → Option ℕ
ids name =
    if str_eq name "soma_create_collector"
    then some 1
    else if str_eq name "soma_open_collector"
    then some 2
    else if str_eq name "soma_close_collector"
    then some 3
    else if str_eq name "soma_destroy_collector"
    then some 4
    else if str_eq name "soma_list_collectors"
    then some 5
    else if str_eq name "soma_hello"
    then some 6
    else if str_eq name "soma_sum"
    then some 7
    else none

abbrev serving : Table
serving = record {
  next = 8;
  rpcs = λ name q. if q == 42 then ids name else none;
  types = λ name q. none;
  data_of = λ k. some 8;
  callbacks = 8 ∷ [];
}

serving-IsRegistered : IsRegistered serving provider
serving-IsRegistered = record {
  create = refl;
  opened = refl;
  close = refl;
  destroy = refl;
  list = refl;
  hello = refl;
  sum = refl;
}

provider_destroy-Reach_example :
    ((j : Table) × (v : World) × (provider_destroy serving 8 (alone raced.provider raced.world)
        ≡ some (success, j, v))
      × (v.live ≡ [])
      × IsUnregistered j 42)
    × ((u : System World Collectors) × Reach raced u
        × All IsDone u.threads
        × (u.provider ≡ raced.provider)
        × (u.world ≡ raced.world)
        × (map (λ e. e.0) (entered u.threads) ≡ twice)
        × IsAnswered (some "secret") (registry server) u)
provider_destroy-Reach_example =
    provider_destroy-Reach serving 8 (some "secret") provider server.world twice raced
      serving-IsRegistered (server-IsOwned, refl) twice-AreServableThen race (tt, (tt, tt))
