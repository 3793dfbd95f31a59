-- ===== src/Lib.antt =====
-- A verification library for Doggy-DNS, a DNS server with an XDP fast path and a Nacos backend.
--
-- The parts, from the packet to the registry, and the files that model them:
-- - Kernel: the XDP program, xdp/doggy-dns-xdp-ebpf/src. Kernel/Memory has the byte helpers of
--   protocol.rs, Kernel/Word the word tricks of main.rs, Kernel/Question `parse_dns_question`,
--   Kernel/Reply `write_nxdomain` and `write_positive`, Kernel/Headers `finalize_headers`, and
--   Kernel/Program `try_dns_xdp`, `record` and `dns_xdp`.
-- - Cache: the userspace side of the kernel cache, crates/doggy-dns-xdp/src: Cache/Hash is
--   cache.rs, Cache/Entry types.rs, Cache/Middleware middleware.rs and middleware/xdp_cache.rs,
--   Cache/Pin pin.rs.
-- - Stats: stats.rs and stats/reader.rs of the same crate.
-- - Handler: crates/doggy-dns-core/src/handler.rs: the answer rotation, the admission to the cache
--   and `handle_request`, which asks the chain and hands its outcome to the middlewares.
-- - Plugin: crates/doggy-dns-plugin/src: the outcome of a request (plugin.rs), the authority chain
--   (authority_chain.rs) and the two recursive authorities (builtin/forward.rs, builtin/native.rs).
-- - Nacos: crates/doggy-dns-nacos/src: the breaker and the service watcher (watcher.rs), the name
--   mapping (mapping.rs) and the authority (authority.rs), which the chain holds as a handler.
-- - Config: the configuration, crates/doggy-dns-basic/src, and what the control plane shows of it,
--   crates/doggy-dns-control/src. Config/Env is env.rs, over the documents of Config/Toml,
--   Config/Redact redact.rs, Config/Schema the sections and Config/Validate validate.rs with
--   the address rule of net.rs.
-- - Observability: crates/doggy-dns-observability/src: the dictionary and the request of a CPU profile
--   (Profiles, over the tables of Tables: profiles/convert.rs), the headers of the exporters
--   (Auth: auth.rs), their URLs (Endpoint: endpoint.rs) and the attributes of a node (Resource:
--   resource.rs).
-- - Common holds the shared names, Tests and Kernel/Tests the runs on concrete inputs.
--
-- A frame is a function from offsets to bytes with a size; an offset stands for a pointer into the
-- packet. Machine words are native numbers with their wrap-around written out. State is passed
-- explicitly: a query of the watcher, a request of the handler and a resolution of the chain each
-- take a state and give the next. Calls are taken one after another.
--
-- Fuel: the name loop of the parser has 33 rounds. Each but the last adds eight bytes to a name, and
-- a name of 255 bytes ends it, so 32 rounds and the one that sees the limit are enough. The chunk
-- loop of `write_positive` has 33 rounds of 16 bytes for at most 512. The loop of `expand_env` has one
-- round more than the text has characters, and each round shortens what is left.
--
-- Parameters stand for code of others: the BPF maps, the kernel clock and `bpf_xdp_adjust_tail`;
-- the DNS library's encoder, `zone_of`, reading, printing and lower case of names, and UTF-8 test;
-- the default `Mapping` and `Link` of the OpenTelemetry protocol; the replies of the Nacos client and
-- of the resolver; whether a response could be sent; the environment, the file system's and the platform's
-- answers to the validation, the address, URL and UTF-8 parsers, base64 and the header checks.
--
-- Not modelled: loading and pinning of the program (kernel I/O), sockets and threads of the server,
-- the reading of configuration files and their defaults, the HTTP service of the control plane, the
-- set-up of the exporters for observability, the assembly in src/main.rs, log lines and spans, and
-- the interleaving of concurrent requests.
pub mod Common
pub mod Config
pub mod Cache
pub mod Handler
pub mod Kernel
pub mod Nacos
pub mod Observability
pub mod Plugin
pub mod Stats
pub mod Tests
