-- ===== src/Lib.antt =====
-- SOMA is a service on Mochi: a provider holds collectors, each made by a backend, and serves remote
-- calls on them. Administrators create, open, close, destroy and list the collectors of a provider;
-- clients say hello to a collector or let it compute a sum.
--
-- The parts of the program and their modules:
--   Common     include/soma/soma-common.h: the return codes, the identifiers; Common/IdText: their
--              conversions to and from text
--   Types      src/types.h: the messages. Types/Layouts: their fields and types. Types/Messages and
--              Types/Serialize: the functions that serialize them; Types/ListOut:
--              hg_proc_list_collectors_out_t. Types/Transmit: a message from one end to the other
--   Backend    include/soma/soma-backend.h: the table of functions of a backend
--   Provider   src/provider.h and src/provider.c. Provider/State: the provider and its collectors.
--              Provider/Server: the state that a handler works on. Provider/Backends:
--              find_backend_impl and add_backend_impl. Provider/Collectors: the functions on the hash
--              of collectors, and check_token. Provider/Handlers: the functions soma_*_ult.
--              Provider/Serve: the registered RPCs as one type of requests. Provider/Dispatch: how a
--              handler finds its provider. Provider/Lifecycle: soma_provider_register,
--              soma_finalize_provider, soma_provider_destroy. Provider/Concurrent: handlers that
--              interleave
--   Dummy      src/dummy/dummy-backend.c; Dummy/Registry: what a provider with this backend promises;
--              Dummy/Concurrent: handlers that interleave
--   Stub       what the remote calls have in common: the target of margo_create, the calls on the RPC
--              handle, and the other end, which a remote call is given as a parameter
--   Admin      src/admin.h and src/admin.c; Admin/Lifecycle: soma_admin_init,
--              soma_admin_finalize; Admin/Balance: their RPC handles
--   Client     src/client.h and src/client.c: the handles; Client/Rpc: the remote calls;
--              Client/Lifecycle: soma_client_init and soma_client_finalize; Client/Session: a
--              client from its beginning to its end
--   Bedrock    src/bedrock-module.c and include/soma/soma-provider-handle.h; Bedrock/Life: a provider
--              from its registration to its end
--   EndToEnd   remote calls that reach a provider and are answered; the life of a provider.
--              EndToEnd/Link: the other end, where messages are serialized and the handler is started
--              that the address, the provider id and the id of the RPC select. EndToEnd/Shutdown: the
--              end of a provider when handlers interleave. EndToEnd/Signatures and
--              EndToEnd/Registered: the types of the RPCs. EndToEnd/Lookup: what a handler finds
--              after the registration, and after the destruction
--   Examples   examples/server.c, examples/admin.c and examples/client.c. Examples/Process: programs
--              that end; Examples/Serving and Examples/Requests: the provider that they use;
--              Examples/Meeting: the programs one after another
--   Foreign    interfaces: uthash (src/uthash.h is a copy of it), json-c, libuuid, Margo,
--              Mercury
--   Prelude    shared names, lists, 32-bit integers, and code that may run into undefined behaviour
--   Tests      concrete runs
--
-- How they interact: a remote call of Admin or Client sends a message of Types to the RPC of a
-- provider; the handler finds the provider, works on its collectors, calls the functions of the
-- collector's backend, and answers. A definition keeps the name of the function that it models,
-- without the prefix soma_.
--
-- State is passed on explicitly. A server is the provider, the world of its backends, and the calls
-- that the handler made of Margo on its RPC handle. A step returns `none` where the code runs into
-- undefined behaviour: a NULL or dangling pointer that is used, an access outside of an array, an
-- overflow of a signed sum, and in the example programs a call on an RPC handle that its state does not
-- allow. A theorem that such a step returns a value excludes it. What code outside of the repository
-- decides is an argument: whether calloc succeeds, the uuid that is generated, the input of a handler
-- that Mercury could read, what an uninitialised variable holds, the results of the calls of Margo. A
-- size_t and a uint64_t wrap at 2^64, an unsigned at 2^32, and an int32_t sum is checked.
-- Loops are recursion on lists, or on the number of rounds that are left, which the loop's counter
-- gives: there is no other fuel.
--
-- A function that serializes a message is one for HG_ENCODE, HG_DECODE and HG_FREE, as in the code: it
-- works on a proc, which holds the units that were written or are left to be read, and counts the blocks
-- that were allocated for what was read. Mercury's functions for the types of the fields, and what
-- MERCURY_GEN_PROC makes of them, are a parameter with the laws that Mercury documents, where it has the
-- memory that it needs itself. A return code is its number in a message.
--
-- Handlers that interleave are threads of a step relation. A handler is a user-level thread of
-- Argobots, which gives way only inside of Margo: while it waits for its input, and at each of its last
-- calls. In between, its body is one step.
--
-- A provider is destroyed when no handler waits: one that does would go on with the freed provider.
--
-- The specification of a provider with the dummy backend is a registry, a list of identifiers and
-- configurations: Dummy/Registry says how it answers each request and what it becomes.
--
-- Not modelled: uthash and munit, which are copies of libraries, and Margo, Mercury, Argobots, json-c
-- and libuuid, which are parameters; uthash's own failure to allocate; logging; handlers that run at the
-- same time on several execution streams, and a backend that gives way or changes the provider that it
-- is passed; what a handler does that waits while its provider is destroyed; the block that realloc
-- leaves when it moves the array of backends; the release of a collector or of an administrator, whose
-- memory nothing reads again; the test programs; of the output of the example programs, all but the
-- lines that state results.
pub mod Prelude
pub mod Common
pub mod Foreign
pub mod Backend
pub mod Types
pub mod Provider
pub mod Dummy
pub mod Stub
pub mod Admin
pub mod Client
pub mod Bedrock
pub mod EndToEnd
pub mod Examples
pub mod Tests
