-- ===== src/Lib.antt =====
-- external-dns-cloudflare-zerotrust-provider: an ExternalDNS webhook provider that keeps the
-- hostname routes of Cloudflare Zero Trust tunnels, and the CoreDNS answers for the same names.
--
-- The program and its model
-- * internal/provider/tunnel.go, Tunnel: `tunnelResolver` decides which tunnel carries a
--   hostname. A Go map is an association list in the order in which it is visited. Tunnel/Resolve
--   and Tunnel/Drain prove what `resolve`, `setDrain`, `configured` and `tunnels` promise.
-- * internal/cloudflare/client.go, Cloudflare: the client of the hostname-route API. The network
--   and the JSON decoders are parameters (`Http`); a request is a value. The loop over the pages
--   runs on fuel: Cloudflare/Paging and Paging/Ends give the fuel that is enough. Cloudflare/Pages
--   is about the requests for the pages. Cloudflare/Headers is about the headers. The numbers of
--   an answer and the page number are Go's `int`, of 64 bits, as Prelude/Ints has them.
-- * internal/metrics/metrics.go, Metrics: each method is the list of updates of the collectors
--   that it makes, none for a nil receiver. Metrics/Collectors has the collectors as they are
--   built and registered, and Collectors/Valid is about the calls of them.
-- * internal/coredns/fragment.go, CoreDns: `Fragment` keeps rewrites in one key of a ConfigMap.
--   The ConfigMap API is a parameter (`ConfigMapApi`). CoreDns/RoundTrip, Same, Valid and Delta
--   are about `render` and `parseRewrites`, `sameRewrites`, the maps that occur, and `Apply`.
-- * internal/provider/provider.go, Provider: the three methods that ExternalDNS calls.
--   Provider/New has `New`, Provider/State the fields that do not change (`Env`), those that do
--   (`State`), and a state monad whose state holds every call of the Cloudflare API and of the
--   fragment writer so far. An answer may depend on all calls before it, so other writers are
--   within the model. Provider/Ownership is about the owner tags, Provider/Records has `Records`,
--   Provider/Adjust `AdjustEndpoints`, Provider/Apply `ApplyChanges`, with Provider/Index,
--   Existing, Creates, Pending and CoreDns for what they call. Provider/Records/Listed,
--   Records/Snapshot, Records/Owned and Pending/Published are about single methods.
--   Provider/Pending/Cleared, Refused and Accounted say which hostnames are pending after each of
--   the three methods; Pending/Holds has the rules for it. Provider/Yields has the rules by which
--   an invariant of the calls is kept, and Provider/Justified states and proves why each call may
--   be made, with Justified/Spared for `AdjustEndpoints` after `Records`, and
--   Provider/FragmentFirst in which order the two halves of `ApplyChanges` come.
--   Provider/Exact/Planned has the changes of routes that a plan asks for, read off the plan and
--   the account, and Provider/Exact with its children compares `ApplyChanges` with them;
--   Provider/Reported is about the errors that it returns, Provider/Cost about the number of its
--   calls.
-- * cmd/webhook, Webhook: the environment and its parsers (main.go) in Webhook itself, with
--   Webhook/Csv and Webhook/TunnelMap for what the parsers promise; the choice of the backend
--   (backend.go) in Webhook/Backend, with Webhook/Backend/Credentials for what a client sends; the
--   start of the server (main.go) in Webhook/Start, with Webhook/Fragment for `buildFragment`,
--   which puts the client, the fragment and the provider together as `main` does, with
--   Webhook/Start/Started for what then holds and Start/Served for what `Records` and
--   `ApplyChanges` come to over the client and its pages, and Webhook/Serve for the warnings, the
--   options of the HTTP API and the handlers of `serveHealth`; and the subcommand (prune.go) in
--   Webhook/Prune, with Webhook/Flags for the flags as Go's package flag reads them. Of the
--   subcommand, Webhook/Prune/Justified is about which calls it may make, Exact with Collected and
--   Deletes about which routes it deletes, Status about its exit status, Report about its last
--   line, and Created about the routes that the provider tags. `Network` and `Kubernetes` stand
--   for what the calls meet: both depend on the calls so far. `pages` of `Network` is how many
--   pages a list asks for before its context ends it, which is an error.
-- * In Errors is what the errors name, without their texts. In Prelude are tests, lists,
--   association lists, sorting and Go's functions on text, which is a list of bytes; letters and
--   white space are those of ASCII.
-- * In Tests are the theorems at concrete inputs.
--
-- `ReadsBack` is what is relied on of Kubernetes: a server-side apply of a key is read back.
--
-- Not modelled: hostnames for which `endpoint.NewEndpoint` returns nil (a label of more than 63
-- characters), on which `Records` and `AdjustEndpoints` panic; logging but for the lists of
-- hostnames that are logged once, contexts and timeouts, the mutexes (a method runs alone), what
-- the Prometheus library does with the collectors, what the HTTP libraries make of the handlers
-- and options of cmd/webhook/main.go, the time limit and the texts of the lines of the
-- subcommand, and the broker under broker/, which is not Go.
pub mod Prelude
pub mod Errors
pub mod Tunnel
pub mod Cloudflare
pub mod Metrics
pub mod CoreDns
pub mod Provider
pub mod Webhook
mod Tests
