-- ===== src/Tests/Lifecycle.antt =====
-- Runs of the registration and the end of a provider, of its backends, and of the Bedrock module.
use soma_c.Prelude.{◌≡◌, refl, true, none, some, [], ◌∷◌, arith, ◌+◌}
use soma_c.Common.{success}
use soma_c.Provider.State.{Provider}
use soma_c.Provider.Backends.{find_backend_impl, add_backend_impl}
use soma_c.Provider.Backends.Lookup.{
  with_backend, find_backend_impl-first_named, add_backend_impl_overruns,
}
use soma_c.Provider.Lifecycle.{
  register_rpc, register_backend, Memory, ProviderArgs, provider_args_init, provider_register,
  fill_provider, register_dummy_backend,
}
use soma_c.Provider.Lifecycle.Registration.{
  initial_server, IsRegistered, provider_register-IsRegistered,
}
use soma_c.Bedrock.{BedrockArgs, register_provider}
use soma_c.Dummy.{dummy_backend}
use soma_c.Dummy.Registry.{IsOwned}
use soma_c.Tests.Instances.{list_hash, text_json, Table, table_margo, empty_table}
use soma_c.Tests.Servers.{World, Collectors, provider}

-- Blocks of at least 16 bytes.
abbrev pub memory : Memory
memory = record { calloc = some 8; strdup_ok = true; usable = λ n. n + 16 }

abbrev pub args : ProviderArgs
args = record provider_args_init { token = some "secret" }

provider_register-IsRegistered_example :
    (p : Provider World Collectors) × (j : Table) × (provider_register 5 memory empty_table 42
        (some args)
      ≡ some (success, some p, j))
    × IsRegistered j p
    × (true ≡ true)
    × (p.provider_id ≡ 42)
    × (p.token ≡ some "secret")
    × IsOwned (initial_server p (λ a. true))
provider_register-IsRegistered_example =
    provider_register-IsRegistered 5 memory empty_table 42 (some args) 8 (λ a. true) refl refl refl
      (omega arith)

find_backend_impl-first_named_example :
    find_backend_impl provider (some "dummy") ≡ some (some dummy_backend)
unfolding dummy_backend
find_backend_impl-first_named_example = find_backend_impl-first_named provider "dummy" refl

add_backend_impl_overruns_example : add_backend_impl (λ n. n) provider dummy_backend ≡ none
add_backend_impl_overruns_example = add_backend_impl_overruns provider dummy_backend (omega arith)

abbrev pub bedrock_args : BedrockArgs
bedrock_args = record { provider_id = 42; config = none; pool = 0; abtio = 0 }

-- The provider that Bedrock registers.
abbrev pub bedrock_filled : Provider World Collectors × Table
bedrock_filled = fill_provider 5 empty_table 42 (record args { token = none }) true 8

abbrev pub bedrock_table : Table
bedrock_table = record bedrock_filled.1 { callbacks = 8 ∷ [] }

pub bedrock_filled-register_provider :
    register_provider 5 memory empty_table bedrock_args
    ≡ some (success, some (with_backend bedrock_filled.0 dummy_backend), bedrock_table)
unfolding register_provider provider_register fill_provider register_dummy_backend add_backend_impl
    register_rpc register_backend
bedrock_filled-register_provider = refl
