-- ===== src/Lib.antt =====
-- singboxhub: a panel for sing-box nodes (backend/). A sampler reads each node's traffic and
-- connections over WebSockets and flushes them to the database; an HTTP API with sessions serves them;
-- a monitor pings imported nodes; encrypted node configurations are read from envelopes.
--
-- The parts, the files that model them, and the code:
--   Sampler, with Drain and Events: backend/internal/sampler/worker.go. A worker is the record of
--     its fields under the lock; each method is a function with its name in snake case (applySnapshot
--     is `apply_snapshot`, Drain is `drain`). The goroutines are any sequence of events. Account,
--     Marks, Flush, Sound and Ledger hold the proofs.
--   Hub: backend/internal/sampler/hub.go. Workers by node id; what the store is told is a list of
--     writes.
--   Store.Nodes: backend/internal/store/nodes.go, with the unique columns of the schema.
--   Store.Traffic and Store.Ips: backend/internal/store/traffic.go and ips.go. A table is a list of
--     rows, a statement a function, a transaction all of its statements or none. The worker's batches
--     are the arguments of the upserts.
--   Auth.Limiter: backend/internal/auth/ratelimit.go.
--   Auth.Session: Tables is backend/internal/store/auth.go, Manager is backend/internal/auth/jwt.go
--     over it. Any interleaving of requests is a sequence of the statements in Revoked.
--   Api.Idempotency: the idempotency store of backend/internal/api/helpers.go.
--   Api.Nodes: importProxiesForNode and handleDeleteNode of backend/internal/api/nodes.go over
--     Store.Nodes. Good, Sync, Synced, Imported, Placed, Children and Complete hold the proofs about
--     an import, Deleted those about deleting. Listing is handleListNodes with the cursors of
--     helpers.go; Walk, Order and Pages prove what a client reads that follows the cursors. Input and
--     Create are handleCreateNode with the validation of nodes_util.go, over the import and
--     Api.Idempotency; Create.Repeat is about repeated requests. Patch and Update are handleUpdateNode
--     with applyNodePatch; Update.Stale is about its ETag.
--   Store.Subscriptions: the subscription tokens of backend/internal/store/misc.go.
--   Api.Subscription: backend/internal/api/subscription.go over Store.Subscriptions, Store.Nodes,
--     Auth.Limiter and the generators of Subscribe. Served, Reset and Exportable hold the proofs.
--   Subscribe: backend/internal/subscribe. Value is a decoded YAML or JSON document with the lenient
--     readers, Parse is parse.go and outbound_server.go, Unique, Outbound, Import and Fetch are
--     clashimport.go, Export is clash.go and generate.go, Uri is uri.go with ShareURI and
--     GenerateBase64. The JSON text of an outbound is represented by the value that it decodes to.
--     Names, Inversion, Kept, View, Imported, Addresses, Exported, RoundTrip, Generated and Shared
--     hold the proofs. Fetch joins Http.Ssrf and Kce.
--   Settings: the settings row of backend/internal/store/misc.go and
--     backend/internal/api/settings.go.
--   Monitor: backend/internal/monitor/icmp.go with backend/internal/store/latency.go.
--   Http.Ssrf: backend/internal/httpx/ssrf.go.
--   Kce: backend/internal/kce/kce.go.
--   Prelude: lists, maps (association lists), integers, 64-bit words, bytes and decimal text.
--
-- Parameters: SHAKE-256 (Kce), the JWT library (Auth.Session.Manager.Jwt), DNS, dialling and URL
-- parsing (Http.Ssrf.Net), the probe of a node (Monitor.World), encryption at rest, the clock and the
-- random ids of an import (Api.Nodes.World), decryption and JSON (Api.Subscription.World), encryption,
-- the fetched configuration and the JSON of an answer (Api.Nodes.Create.World), base64 of cursors
-- (Api.Nodes.Listing.Codec), base64, query encoding and the JSON text of a vmess link
-- (Subscribe.Uri.Codec), the decoding of YAML (an argument of parse_clash_config), which secrets
-- decrypt (Hub.reload), the clock and random values (arguments). Whether a node's id exists for a
-- foreign key is the argument `known`.
--
-- Bounds and fuel: the byte counters of a worker are int64 patterns, numbers below 2 ^ 64 with
-- wrap-around written out; byte columns of the database are unbounded integers. Times are not
-- negative. The block loop of Kce takes the length of the data as its fuel, and each round consumes at
-- least one byte; decimal printing takes the number plus one, and a number has at most that many
-- digits. The search for an unused name takes one round more than there are names, which suffices.
--
-- Not modelled: the web interface, the other API handlers, the text of YAML and JSON documents,
-- geolocation, the Clash client, probes, configuration, migrations and the text of SQL; failures of
-- the database other than violated constraints; the supervision, ticker and waiting loops.
pub mod Api
pub mod Auth
pub mod Http
pub mod Hub
pub mod Kce
pub mod Monitor
pub mod Prelude
pub mod Sampler
pub mod Settings
pub mod Store
pub mod Subscribe
