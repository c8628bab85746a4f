-- ===== src/Tests/Servers.antt =====
-- Runs on a provider with one collector of the dummy backend.
use soma_c.Prelude.{
  ◌≡◌, refl, String, true, Option, none, some, List, [], ◌∷◌, arith, map, eq_iff, inl,
}
use soma_c.Prelude.Int.{pos, ◌+ℤ◌}
use soma_c.Common.{success, err_invalid_token, err_from_mercury, err_other}
use soma_c.Types.{CreateCollectorOut}
use soma_c.Provider.State.{Collector, Provider}
use soma_c.Provider.Server.{Server, HandleCall, close_out}
use soma_c.Provider.Collectors.{check_token, find_collector, unlink_collector, remove_collector}
use soma_c.Provider.Handlers.{Supply, destroy_body, destroy_collector_ult}
use soma_c.Provider.Serve.{Request, create_collector, destroy_collector, hello, sum, handle, serve}
use soma_c.Provider.Serve.Auth.{answer, called, refusal, handle-wrong_token, handle-IsUndecoded}
use soma_c.Provider.Serve.NullString.{handle-null}
use soma_c.Provider.Serve.Invariant.{Answers, handle-Answers}
use soma_c.Dummy.{Heap, dummy_backend, dummy_destroy_collector, free_context}
use soma_c.Dummy.Registry.{IsOwned, IsSendable, registry, reply_of}
use soma_c.Dummy.Serve.{Serves, handle-Serves}
use soma_c.Dummy.History.{concat, respond_all, AreServable, serve-respond_all}
use soma_c.Tests.Instances.{list_hash, text_json}

abbrev pub World : Type 0
World = Heap String

abbrev pub Collectors : Type 0
Collectors = List (Collector World)

abbrev pub provider : Provider World Collectors
provider = record {
  mid = 5;
  provider_id = 42;
  pool = 0;
  abtio = 0;
  token = some "secret";
  num_backend_types = 1;
  backend_types = dummy_backend ∷ [];
  backend_types_size = 1;
  num_collectors = 1;
  collectors = record { fn = dummy_backend; ctx = 1; id = 7 } ∷ [];
  create_collector_id = 1;
  open_collector_id = 2;
  close_collector_id = 3;
  destroy_collector_id = 4;
  list_collectors_id = 5;
  hello_id = 6;
  sum_id = 7;
}

abbrev pub server : Server World Collectors
server = record {
  provider = provider;
  world = record { next = 2; live = (1, "{}") ∷ []; grants = λ p. true; stdout = [] };
  calls = [];
}

pub server-IsOwned : IsOwned server
server-IsOwned = record {
  well_formed = record { counted = refl; keyed = (refl, tt); backends = refl };
  backend = refl;
  owns = (refl, refl, tt);
  ascending = (omega arith, omega arith);
}

-- Any token may be compared with any secret.
pub sent-IsSendable : (secret : Option String) (token : String) → IsSendable secret (some token)
sent-IsSendable none token = tt
sent-IsSendable (some secret) token = tt

abbrev pub supply : Supply
supply = record { uuid = 9; calloc_ok = true }

abbrev pub create_out : CreateCollectorOut
create_out = record { ret = err_other; id = 13 }

abbrev create_9 : Request
create_9 = create_collector supply (record {
  input = some (record { type = some "dummy"; config = none; token = some "secret" });
  out = create_out;
})

abbrev sum_9 : Request
sum_9 = sum (record {
  input = some (record { collector_id = 9; x = pos 3; y = pos 4 });
  out = record { result = pos 0; ret = err_other };
})

abbrev pub destroy_7 : String → Request
destroy_7 token = destroy_collector (record {
  input = some (record { token = some token; id = 7 });
  out = record { ret = err_other };
})

abbrev pub history : List Request
history = create_9 ∷ sum_9 ∷ destroy_7 "secret" ∷ hello (some (record { collector_id = 9 })) ∷ []

history-AreServable : AreServable server history
unfolding ◌+ℤ◌
history-AreServable = (
  (tt, ("dummy", refl), refl, refl, refl),
  λ t1 e1.
      (refl, λ t2 e2. (sent-IsSendable t2.provider.token "secret", λ t3 e3. (tt, λ t4 e4. tt))),
)

serve-respond_all_example :
    (t : Server World Collectors) × (css : List (List HandleCall)) × (serve history server
      ≡ some (tt, t))
    × (t.calls ≡ concat css)
    × ((map reply_of css, registry t) ≡ respond_all (some "secret") history (registry server))
    × IsOwned t
serve-respond_all_example = serve-respond_all history server server-IsOwned history-AreServable

handle-Serves_example : Serves (destroy_7 "secret") server
handle-Serves_example = handle-Serves (destroy_7 "secret") server server-IsOwned tt

handle-wrong_token_example :
    handle (destroy_7 "guess") server
    ≡ some (tt, called server (refusal err_invalid_token (destroy_7 "guess")))
handle-wrong_token_example =
    handle-wrong_token server (destroy_7 "guess") "secret" "guess" refl refl
      (ground (arith, eq_iff "guess" "secret"))

abbrev undecoded_sum : Request
undecoded_sum = sum (record { input = none; out = record { result = pos 0; ret = err_other } })

handle-IsUndecoded_example :
    handle undecoded_sum server ≡ some (tt, called server (refusal err_from_mercury undecoded_sum))
handle-IsUndecoded_example = handle-IsUndecoded server undecoded_sum refl

-- The server after its collector was destroyed.
abbrev pub destroyed : Server World Collectors
destroyed = record {
  provider = record provider { collectors = []; num_collectors = 0 };
  world = record { next = 2; live = []; grants = λ p. true; stdout = [] };
  calls = answer (close_out (record { ret = success }));
}

destroy_7-destroyed : handle (destroy_7 "secret") server ≡ some (tt, destroyed)
unfolding handle destroy_collector_ult destroy_body check_token find_collector remove_collector
    unlink_collector dummy_backend dummy_destroy_collector free_context
destroy_7-destroyed = refl

handle-Answers_example : Answers (destroy_7 "secret") server destroyed
handle-Answers_example = handle-Answers (destroy_7 "secret") server destroyed destroy_7-destroyed

abbrev destroy_any : Request
destroy_any =
    destroy_collector
      (record { input = some (record { token = none; id = 7 }); out = record { ret = err_other } })

handle-null_example : handle destroy_any server ≡ none
handle-null_example = handle-null server destroy_any (inl (("secret", refl), refl))
