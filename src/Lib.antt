-- ===== src/Lib.antt =====
-- wgd, a WireGuard manager: a daemon that runs as root keeps connections in a store and brings them
-- up and down for its clients, and a helper process drives each tunnel. This library models the daemon's core,
-- its socket, and the helper's routes and DNS.
--
-- The parts and how they interact. A client's request (src/privileged_api.rs) reaches `dispatch`
-- (src/privileged/dispatch.rs), which checks the caller against the stored record, asks for an admin
-- authorization where one is needed (src/privileged/authz.rs), and reads and writes the records of the
-- store (src/privileged/connection_store.rs). A connect or a disconnect is left to a worker thread, which
-- holds the connection's lock, records the user's intent and calls src/privileged/connection_ops.rs.
-- Configurations are parsed and fingerprinted by src/wireguard/connection_config.rs. Leases of clients and
-- the shutdown of an idle daemon are `ControlState` (src/privileged/mod.rs). The daemon's accept loop
-- (src/privileged/socket.rs) reads one line from a client, `process_request_payload` (src/privileged/mod.rs)
-- turns it into a request for `dispatch`, and the loop writes the response or waits for the worker. The
-- helper (src/userspace_helper.rs) installs routes and DNS servers when the tunnel comes up, follows the
-- network while it is up, and takes them down at the end, all by commands of the system.
--
-- Which file models what:
--   Prelude, Text, Exec      Boolean tests, lists and Rust's strings as lists of code points; a step of
--                            the daemon as a function of its state; how a step may change the state
--   Error                    src/error.rs; an error keeps its variant, not its text
--   Wireguard                src/wireguard/connection_config.rs and the MTU bound of config.rs:
--                            Wireguard/Parser is `parse_connection_config`, its accumulators the record
--                            `Parse`; Wireguard/Fingerprint is `fingerprint`
--   Api                      src/privileged_api.rs: requests, responses and their validation
--   Daemon                   the state `World` (record files, active markers, boot marker, sockets, a trace
--                            of the commands run as root) and the environment `Env` of one call
--   Daemon/Disk, Store       src/privileged/connection_store.rs: the wire format, and the accessors as
--                            actions on `World`
--   Daemon/Boot              the reconciliation at boot, from the same file
--   Daemon/Ops               src/privileged/connection_ops.rs: hooks, bringing up, tearing down
--   Daemon/Control           `ControlState` of src/privileged/mod.rs and src/privileged/managed_pids.rs
--   Daemon/Dispatch          src/privileged/dispatch.rs: Add and Mtu for `AddConnection`, Handlers for the
--                            other requests and the workers
--   Daemon/Frames            `process_request_payload` and the frames of a response (src/privileged/mod.rs)
--   Daemon/Socket            src/privileged/socket.rs: `Client::step`; Serve is a pass of `serve` and the timeout
--                            of `wait_for_io`
--   Helper                   src/userspace_helper.rs: the state of a tunnel and the commands that ran; Commands
--                            is how a command ends, Network the networks, Ifconfig the local ones, Routes the
--                            desired routes with Table, Install and Reconcile, Dns the services' settings
--                            with Plan and Reconcile, Config and Setup the start and the end
--   Client                   src/privileged_client/mod.rs: the requests of a user's program, over an interface
--                            for `send`; Agent is src/session_agent.rs, at its start and at its end,
--                            Requests has the theorems on what it asks for, and Names is the reading of a
--                            connection's name (src/connection_cli.rs)
--   Helper/Network/Containment, Helper/Ifconfig/Addresses, Helper/Dns/Originals, Helper/Dns/Plan/Reference,
--   Helper/Routes/Lan, Attached, Foreign, Added, Deletes, Stale and Owned, Helper/Setup/Established,
--   Complete and Teardown, Daemon/Socket/Bounds, Callers, Server and Deadline
--                            theorems on these parts; the modules called Moves, Runs and Succeeds beside
--                            them, and those of Exec, carry what a step may change, run, give and leave
--   Wireguard/Parser/Accepted, Daemon/Disk/RoundTrip, Daemon/Boot/Once, Daemon/Ops/Records and Integrity,
--   Daemon/Control/Shutdown  theorems on these parts
--   Daemon/Dispatch/Reading, Requests, AdminGate, Ownership, Intent, Listed
--                            theorems on the handlers and the workers
--   Tests                    a small installation, on which the theorems are applied
--
-- Conventions. Numbers are natural numbers; a `u16` or `u32` that the program reads or writes has its bound
-- written out. A handler is an `Exec`: it returns a value, or ends early with a response, and what it changed
-- before stays changed. A call meets one environment, so a lock, a write or a query answers alike each
-- time in one call. The only loop with a bound is the eight rounds of `allocate_unique_interface`, as in
-- the source; the other loops are over lists, and the accept loop is one pass at a time. `Platform` stands for std's and ipnet's text forms of
-- addresses, base64 and SHA-256, `Resolver` for the system's resolver, `Uuids` for the uuid crate, and `grants`
-- for Security.framework. `Wire` is serde_json, `Events` what the clock and the sockets answer in one step of a
-- client, and `Host` what a command of the system answers, which may depend on all that ran before. The
-- socket's limits are the source's; a number is printed with five digits, enough for 16 bits.
--
-- Not modelled: the transports of the client, the signals and the installation of the session agent, reload, the
-- system calls of the accept loop, and of the helper the tunnel device, its query socket and its
-- overview tables; JSON text, logging, launchd, and the command line. Two calls are interleaved only at
-- their boundaries, as `run_worker` after `dispatch`; the locks that the source takes are modelled by
-- whether they are acquired, and the helper's mutexes, which one thread takes at a time, are left out.
pub mod Prelude
pub mod Text
pub mod Error
pub mod Wireguard
pub mod Api
pub mod Exec
pub mod Client
pub mod Daemon
pub mod Helper
pub mod Tests
