-- ===== src/Lib.antt =====
-- Verification of ServerEngineV4: the Server's control thread with its lifecycle requests, the
-- communication layer that feeds it, the licence and lease, diagnostics, and some tables.
--
-- The program. Endpoint threads (console, TCP) parse client messages and push them into one request
-- queue. The Server's control thread pops them one at a time, executes them against the one active
-- Project, and answers over the connection's outbound channel, which a writer thread drains. The
-- registry of logged-in connections takes broadcasts of state changes and routed client messages.
-- A lease bounds how long the loop runs.
--
-- Files, with the code of each (paths below server_engine/):
--   Common, Text      shared notation, tests on numbers, lists, words, byte strings
--   Status, Policy    server_status.hpp, server_state.hpp, server_policy.cpp, server_mode.hpp
--   License           license/server_lease.cpp, license/server_license.cpp, and in its children
--                     server_lease_loader.cpp, server_license_loader.cpp: the UTC time parser
--                     (Datetime), the JSON event handlers and the loaders
--   Diagnostics       diagnostics/: records, collection, the deterministic sort, source cache
--   Communication.Session       communication/session/client_session.cpp
--   Communication.Outbound      communication/connection/outbound_channel.cpp
--   Communication.RequestQueue  communication/request_queue.cpp
--   Communication.Gate          tcp_connection_gate of communication/tcp/tcp_endpoint.cpp
--   Communication.Protocol      protocol_contract.hpp, server_response.hpp
--   Communication.Connection    communication/connection/communication_connection.cpp
--   Communication.Registry      communication/communication.cpp
--   Server.*          server.cpp: State (server.hpp, server_context.hpp), Control (load, publish,
--                     build, rebuild, unload, run, freeze), Conditions (snap_ic, reset_ic), Query
--                     (GET_STATE, GET_VALUE), Dispatch (execute, execute_message), Sessions (login,
--                     close, client messages), Loop (run, shutdown), Startup (start); the other
--                     files are proofs
--   Json.Unicode                json/json_unicode.hpp
--   Project.AssignTable         project/assign/assign_table.cpp
--   Project.Probing             next_capacity and the probing of the two hash tables; the way of a probe,
--                     and how it changes when a slot is written
--   Project.Preprocessor        project/preprocessor/preprocessor.cpp, with expand in Expansion
--   Project.StringTable         project/string/string_table.cpp, over a compiled_project_view
--   Project.Directives          project/frontend/directive_executor.cpp, with execute in Execution; the
--                     conditionals and file entries are lists, the innermost first
--   Tests             runs on concrete data
--
-- State and threads. An object is a record, and a method a function on it that returns the new
-- record and its result. A method that holds a mutex is one atomic step, and a wait is modelled by
-- what it returns in the state in which it ends, so that any interleaving of threads is a list of
-- calls. The gate has no mutex: there a step is one atomic access, a schedule picks the thread, and
-- a weak compare-exchange may fail without a reason. Connections are addresses in a store, which the
-- registry and the messages refer to.
--
-- Numbers are natural numbers; 32-bit and 64-bit counters wrap where the code lets them wrap. The
-- control loop recurses over the rounds that its environment provides, and the return of `run` is
-- proved for every environment in which a round begins after the lease. A probe of a hash table has
-- as much fuel as the table has slots, which suffices because a slot is vacant; the loops of expand
-- take their fuel as an argument.
--
-- Parameters. Project construction, Runtime queries, the initial-condition codec, files and paths are
-- the fields of Server.Engine.Engine; whether an endpoint's backend starts is Registry.Host; the
-- configuration loader, the identity and authentication services are Startup.Boot; files and the events
-- of the JSON parser are License.Loading.Files. The string table reads a compiled Project through
-- StringTable.Baseline, and the preprocessor asks the string table by its argument `known`.
--
-- Simplifications. communication::start is taken up to the first client, since its endpoints may admit clients
-- before it returns. The enqueue_ methods, begin_close and mark_written of a connection enter several critical
-- sections in turn and are one step here. UTC times are unbounded seconds, so that the overflow of a clock that counts
-- nanoseconds is left out. std::ranges::stable_sort is an insertion sort.
--
-- Not modelled: memory exhaustion, the socket and terminal input and output, the JSON parser and
-- protocol, the configuration loaders, authentication, and the Project compiler.
pub mod Common
pub mod Text
pub mod Status
pub mod Diagnostics
pub mod Policy
pub mod License
pub mod Communication
pub mod Server
pub mod Json
pub mod Project
mod Tests
