-- ===== src/Lib.antt =====
-- spacegate: the routing of its kernel, and the logic behind it that can be checked by itself.
--
-- A gateway (crates/kernel/src/service/http_gateway.rs) keeps a tree of host names
-- (crates/kernel/src/service/http_route/match_hostname.rs) whose values are the routes to try, in
-- the order of their priorities. A request's host gives the candidates; the first rule of a
-- candidate with a match that takes the request (match_request.rs beside it) is chosen, and the
-- match rewrites the path and the headers.
--
-- Files:
--   Common: lists, texts as lists of code points, ordered maps and integers, with their lemmas.
--   Hostname.Node, Children, Rules, Lookup, Update, Modify, Iter, Exact: HostnameMatcherNode. A
--     `BTreeMap` is a list in key order; `get_mut` is modelled by the tree behind the write, and the
--     `for_each` over the mutable iterator by the tree behind it.
--   Hostname.Tree: HostnameTree. The parsers of IP addresses are parameters.
--   Route.Query: utils/query_kv.rs. Its loop has as much fuel as the query has code points and one
--     more; each item takes at least one.
--   Route.Path, Route.Match: match_request.rs and the path modifier of crates/plugin/src/model.rs.
--     Regular expressions, header values and the checks of URIs are the record `Http`, from other
--     crates.
--   Gateway.Build, Gateway.Route, Gateway.Requests: create_http_router and GatewayRouter::route.
--     Services, plugins and logging are left out. The unstable sort is an insertion sort, which is one
--     of the orders that it may give.
--   Plugin.Instance, Plugin.Repository: the plugin repository of crates/plugin/src. A function that
--     layers share is a cell of a heap; a drop marker is a number that is live until its mount point
--     goes. Laws, Mount and Reach under it have the proofs.
--   Balancer: crates/kernel/src/helper_layers/balancer.rs and its policies.
--   Utils.SchemaPort, Utils.ParseHost: schema_port.rs and parse_host.rs of crates/kernel/src/utils.
--   Callback: the retries of binary/ai-gateway-service/src/app/callback.rs. What is sent to Redis is
--     the state, and which commands fail is an argument.
--   AiService: binary/ai-gateway-service/src/app. Bucket is the script TOKEN_BUCKET_LUA of types.rs, run
--     by a server whose clock need not be the service's. Rules has the rules of ratelimit.rs with their
--     keys and checks, and Store what Redis holds of them; Rules.Choice is the choice among rules by
--     their dimensions, and Store.Events relates it to the stored texts. Enqueue is
--     how a request becomes an entry, with Bodies for the storing of its body (object_store.rs) and
--     Streams for the stream that it goes to and the order in which workers read. The loop of Bodies
--     over full parts is on fuel, the number of bytes, and each part takes some. Jobs is a worker's run
--     of an entry, in queue.rs with object_store.rs, result_store.rs and callback.rs, on what Redis and
--     the upstream have seen; a run is one step, and runs that overlap are not modelled. That leases and counts expire is an
--     event between runs (Jobs.Runs). The trimming of streams may fail, but what it deletes stays in
--     the model's lists, which say what was written. Effects has
--     calls that may fail. Metrics has the counters and histograms of metrics.rs, and what the handler
--     of metrics in handlers.rs tells of them. Poll answers for results
--     (get_job and enqueue_and_wait of handlers.rs, result_store.rs), with the dates of Dates (util.rs);
--     Dates.Calendar is the calendar that these are compared with.
--   AiQueue: the WebAssembly filter of plugins/wasm/ai-gateway-queue/src. Config, Json, Lines and Parse
--     read its configuration, Headers and Filter are the callbacks; what they tell the host is a log of
--     effects. Common.Parse has what it uses of Rust's texts.
--   Plugin.Name: the text forms of plugin ids in crates/model/src/plugin.rs. Plugin.Maintenance: the
--     filter of crates/plugin/src/plugins/maintenance.rs, with the time and the address as arguments.
--   Wasm.SharedData, Wasm.SharedQueue: the store and the queues that WebAssembly modules share,
--     crates/plugin-wasm/src/shared.rs. Locks make the operations steps.
--   K8s: crates/config/src/service/k8s/convert. Model has the configuration's rules, Kube the
--     resources; Plugins, Backend, Match and Rule convert between them, and their Laws read back what
--     was written. Rule.Kept says what is left of a rule. The types of the Kubernetes crates are the
--     data that the conversions build and match on.
--   Shell.Retrieve: the interface of configuration stores, crates/config/src/service.rs. Shell.Running
--     and Shell.Handler: the map of running gateways (crates/shell/src/server.rs) and the handler of
--     configuration events (config.rs beside it). The router that a gateway's routes give and whether
--     its listeners come up are fields of the record `Kernel`; a gateway runs until it is shut down.
--     Shell.Sync has the changes of a store with their events. Shell.Memory is the store that is a
--     configuration, crates/config/src/service/memory/mod.rs.
--   Tests: runs, and the theorems at concrete inputs.
--
-- Texts are lists of Unicode scalar values; all separators are ASCII, so byte offsets play no part.
-- Not modelled: the loops of workers and reclaimers, the subscriptions of clients that wait, input
-- and output, TLS, the servers, and code that only calls other crates.
pub mod Common
pub mod Hostname
pub mod Plugin
pub mod Route
pub mod Gateway
pub mod Balancer
pub mod Utils
pub mod Callback
pub mod AiQueue
pub mod AiService
pub mod Wasm
pub mod K8s
pub mod Shell
pub mod Tests
