-- ===== src/Lib.antt =====
-- Clawpot runs untrusted workloads in Firecracker microVMs. This library models the parts of it
-- that keep state and make decisions, and proves what makes them correct.
--
-- Parts of the program and the modules that model them (paths from the repository's root):
--   clawpot-server/src/network/ip_allocator.rs   Network/IpAllocator and the modules below it
--   clawpot-server/src/network/iptables.rs       Network/Iptables
--   clawpot-server/src/network/tap.rs, bridge.rs Network/Devices
--   clawpot-server/src/network/mod.rs            Network/Manager
--   clawpot-common/src/vm/lifecycle.rs           Vm/Lifecycle
--   clawpot-common/src/firecracker/config.rs     Vm/Config
--   clawpot-common/src/vm/manager.rs             Vm/Manager, Vm/Client
--   clawpot-common/src/firecracker/client.rs     Vm/Client
--   clawpot-server/src/vm/registry.rs            Vm/Registry
--   clawpot-server/src/grpc/service.rs           Grpc/Server, Grpc/Create, Grpc/Delete, Grpc/Query,
--                                                Grpc/Interleaved
--   clawpot-server/src/main.rs (shutdown)        Grpc/Delete
--   clawpot-server/src/proxy/auth_client.rs      Proxy/Auth
--   clawpot-server/src/proxy/dns_proxy.rs        Proxy/Dns and the modules below it
--   clawpot-server/src/proxy/tls_mitm.rs         Proxy/Sni, Proxy/Tls
--   clawpot-server/src/proxy/ca.rs               Proxy/Ca
--   clawpot-server/src/proxy/proxy_protocol.rs   Proxy/ProxyProtocol
--   clawpot-server/src/proxy/llm.rs              Proxy/Llm and the modules below it
--   clawpot-server/src/proxy/http_proxy.rs, body_store.rs  Proxy/Http and the modules below it
--   clawpot-server/src/events/store.rs           Events/Store, Events/Writer, Events/Query, Events/Rows
--   clawpot-agent/src/exec.rs, stream.rs         Agent/Exec, Agent/Stream
--   clawpot-server/src/agent/client.rs           Agent/Client
--   clawpot-cli/src/commands/logs.rs             Cli/Logs and the modules below it
--   clawpot-cli/src/commands/create.rs, delete.rs, exec.rs, list.rs  Cli/Vms
-- Functions keep their names. A handler with long branches is cut at its calls: `after_tap` is what
-- `create_vm` does once the TAP device was made or refused.
--
-- How they interact: `create_vm` takes an address from the allocator, has the network manager make
-- the TAP device and its iptables rule, has the VM manager start Firecracker, and registers the VM;
-- `delete_vm` and the shutdown take a VM out of the registry and give all that back.
--
-- The machine. Netlink, ioctl, iptables, files, processes and Firecracker's API are not in the
-- repository, and the server reaches the guest agent by RPC. Host declares each of their calls and
-- takes the answers as a parameter, `Env`: an answer may depend on all calls before it, and no theorem
-- assumes more of it than it says. Calls are kept in a trace, newest first. The assumptions, in the
-- theorems that name them, are that `iptables -C` reports whether the rule is there
-- (`Iptables.Chains.Reports`), and, where the HTTP client of Firecracker stands below the calls, that
-- they are answered as it answers (`Vm.Client.Wire.Over`).
--
-- The proxies. A VM's DNS queries and TLS connections are redirected to the server. Buffers are lists
-- of bytes (below 256 where a theorem needs it), and an index out of bounds is an outcome of its own,
-- `Common.Bytes.Run`; a loop that reads a buffer has rounds, and running out of them counts as a
-- panic, so that a theorem that no panic occurs shows that the rounds are enough. The authorization
-- service and the upstream server are parameters, and so are the crates serde_json (`Json`), rcgen
-- (`Proxy.Ca.Rcgen`), rustls (`Proxy.Tls.Socket`) and hyper's reading of a request. A text is the list
-- of its UTF-8 bytes, and what the standard library does to it (`trim`, `lines`, `split`,
-- `split_whitespace`, `from_utf8_lossy`, the parsing of IPv4 addresses) is written out on them. What a
-- listener waits for is a list; each task that it spawns has a log of its own, so that no order of the
-- tasks is assumed.
--
-- The event log. Emission appends to a channel; the writer reads it whenever it runs. Its looks into
-- the channel are an argument (`Events.Writer.Arrivals`), so that a theorem for all of them holds for
-- every interleaving of senders and writer.
--
-- The agent. The tasks of `run_stream` are a step relation (`Agent.Stream.Step`), so that what is proved
-- holds for every order of their turns; when the process writes and exits may depend on what it has got
-- on its stdin (`Process`), and a client may be silent. A client that neither reads nor hangs up stops
-- the readers; no step is forced for it. `wait_ready` has `timeout / 500 + 2` rounds, and the theorem on
-- it shows that they are enough; an attempt may hang, since the code sets no limit on its time.
--
-- State. Stateful code takes its state and returns it with a result (`Common.State`). The server's
-- state is `Grpc.Server.Server`: registry, pool, network manager, emitted events, trace. Each method
-- of the registry and of the allocator holds its lock for its whole body. The handlers are modelled
-- run by run in Create, Delete and Query; Interleaved has any number of them at once, as a step
-- relation on pool, registry and the addresses that handlers have in hand. `u32` and `u8` wrap as in
-- the source. Loops are structural: the rounds of `allocate` are the length of its bitmap, and
-- `wait_for_socket` makes 50 attempts, as in the source.
--
-- Not modelled: log messages, tracing spans and durations; the data of the gRPC service's events; the
-- transport of RPC; the listeners of the TLS proxy and of the agent,
-- and the parsing of the command line.
pub mod Common
pub mod Host
pub mod Json
pub mod Network
pub mod Vm
pub mod Grpc
pub mod Proxy
pub mod Events
pub mod Cli
pub mod Agent
mod Tests
