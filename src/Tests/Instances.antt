-- ===== src/Tests/Instances.antt =====
-- The libraries that the program calls, instantiated by concrete functions.
use soma_c.Prelude.{
  ℕ, suc, refl, String, str_eq, true, ◌&&◌, Option, none, some, List, [], ◌∷◌, ◌++◌, ◌==◌,
  if◌then◌else◌,
}
use soma_c.Common.{Ptr}
use soma_c.Foreign.UtHash.{UtHash, find_id, erase_id}
use soma_c.Foreign.JsonC.{JsonC}
use soma_c.Foreign.Margo.{Margo, without_owner}
use soma_c.Foreign.Names.{Names}
use soma_c.Provider.State.{Collector}
use soma_c.Types.Layouts.{Signature}

instance abbrev pub list_hash : {W : Type 0} → UtHash W (List (Collector W))
list_hash = record {
  empty = [];
  find = λ t id. find_id id t;
  add = λ t c. t ++ c ∷ [];
  del = λ t c. erase_id c.id t;
  items = λ t. t;
  items-empty = refl;
  find-items = λ t id. refl;
  items-add = λ t c e. refl;
  items-del = λ t c e. refl;
}

-- A configuration is its text; the empty text is none.
instance abbrev pub text_json : JsonC String
text_json = record { parse = λ text. if str_eq text "" then none else some text; new_object = "{}" }

-- An instance of Margo: the RPCs by name and provider id, the data, the callbacks, and the next id.
pub record Table : Type 0 where
  pub next : ℕ
  pub rpcs : String → ℕ → Option ℕ
  pub types : String → ℕ → Option Signature
  pub data_of : ℕ → Option Ptr
  pub callbacks : List Ptr

abbrev unless : ℕ → Option ℕ → Option ℕ
unless id none = none
unless id (some k) = if k == id then none else some k

instance abbrev pub table_margo : Margo Table
table_margo = record {
  is_listening = λ t. true;
  registered = λ t name provider_id. t.rpcs name provider_id;
  register = λ t name g provider_id pool. (
    t.next,
    record t {
      next = suc t.next;
      rpcs = λ m q. if str_eq name m && (provider_id == q) then some t.next else t.rpcs m q;
      types = λ m q. if str_eq name m && (provider_id == q) then some g else t.types m q;
    },
  );
  signature = λ t name provider_id. t.types name provider_id;
  register_data = λ t id p. record t { data_of = λ k. if k == id then some p else t.data_of k };
  registered_data = λ t id. t.data_of id;
  disable_response = λ t id. t;
  deregister = λ t id. record t {
    rpcs = λ m q. unless id (t.rpcs m q);
    data_of = λ k. if k == id then none else t.data_of k;
  };
  push_finalize = λ t p. record t { callbacks = p ∷ t.callbacks };
  pop_finalize = λ t p. record t { callbacks = without_owner p t.callbacks };
  callbacks = λ t. t.callbacks;
  callbacks-push_finalize = λ t p. refl;
  callbacks-pop_finalize = λ t p. refl;
  callbacks-register = λ t n g p pool. refl;
  callbacks-register_data = λ t id p. refl;
  callbacks-disable_response = λ t id. refl;
  callbacks-deregister = λ t id. refl;
  registered-register = λ t n m g p q pool. refl;
  signature-register = λ t n m g p q pool. refl;
  signature-register_data = λ t id p m q. refl;
  signature-disable_response = λ t id m q. refl;
  signature-push_finalize = λ t p m q. refl;
  registered_data-register_data = λ t id p k. refl;
  registered_data-register = λ t n g p pool k e. refl;
  registered_data-deregister = λ t id k. refl;
  registered_data-disable_response = λ t id k. refl;
  registered_data-push_finalize = λ t p k. refl;
  registered-deregister = λ t id m q. refl;
  registered-register_data = λ t id p m q. refl;
  registered-disable_response = λ t id m q. refl;
  registered-push_finalize = λ t p m q. refl;
  registered-pop_finalize = λ t p m q. refl;
  listening-register = λ t n g p pool. refl;
  listening-register_data = λ t id p. refl;
  listening-disable_response = λ t id. refl;
  listening-deregister = λ t id. refl;
  listening-push_finalize = λ t p. refl;
  listening-pop_finalize = λ t p. refl;
}

abbrev pub empty_table : Table
empty_table = record {
  next = 1;
  rpcs = λ m q. none;
  types = λ m q. none;
  data_of = λ k. none;
  callbacks = [];
}

-- RPCs by name alone.
-- The id of a name.
abbrev pub name_id : String → ℕ
name_id name =
    if str_eq name "soma_create_collector"
    then 1
    else if str_eq name "soma_open_collector"
    then 2
    else if str_eq name "soma_close_collector"
    then 3
    else if str_eq name "soma_destroy_collector"
    then 4
    else if str_eq name "soma_list_collectors"
    then 5
    else if str_eq name "soma_hello"
    then 6
    else if str_eq name "soma_sum"
    then 7
    else 0

pub record NameTable : Type 0 where
  pub ids : String → Option ℕ
  pub types : String → Option Signature

instance abbrev pub table_names : Names NameTable
table_names = record {
  registered_name = λ t name. t.ids name;
  register = λ t name g. (
    name_id name,
    record t {
      ids = λ m. if str_eq name m then some (name_id name) else t.ids m;
      types = λ m. if str_eq name m then some g else t.types m;
    },
  );
  signature = λ t name. t.types name;
  disable_response = λ t id. t;
  registered_name-register = λ t n m g. refl;
  signature-register = λ t n m g. refl;
  signature-disable_response = λ t id m. refl;
  registered_name-disable_response = λ t id m. refl;
}

abbrev pub no_names : NameTable
no_names = record { ids = λ m. none; types = λ m. none }
