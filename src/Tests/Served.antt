-- ===== src/Tests/Served.antt =====
-- The theorems on a started server, for a network that serves two routes.
use external_dns_cloudflare.Prelude.{
  split, fields, false, true, if◌then◌else◌, Result, Assoc, cut, Bool, zero, suc, some, drop, take,
  ◌+◌, ◌≤◌, ◌*◌, ℕ, Text, decimal, ◌==◌, none, arith, lookup, ok, ◌∷◌, [], ◌≡◌, refl, codes, Option,
  List, length, nat_eq, not, ◌≢◌, ◌<◌, ap,
}
use external_dns_cloudflare.Errors.{Error}
use external_dns_cloudflare.Prelude.Ints.{int_half}
use external_dns_cloudflare.Cloudflare.{
  Client, Http, HostnameRoute, ApiResponse, ResultInfo, Request, response_limit,
}
use external_dns_cloudflare.Cloudflare.Pages.{AsksPage, scope_of}
use external_dns_cloudflare.CoreDns.{
  apply, load, desired_rewrites, same_rewrites, default_key, parse_rewrites,
}
use external_dns_cloudflare.Webhook.Fragment.{fragment_writer}
use external_dns_cloudflare.Provider.Exact.Fragment.{IsWritable}
use external_dns_cloudflare.Tunnel.{tunnels}
use external_dns_cloudflare.Provider.State.{History}
use external_dns_cloudflare.Provider.Records.{records}
use external_dns_cloudflare.Provider.Records.Listed.{endpoints_on}
use external_dns_cloudflare.Provider.Apply.{apply_changes}
use external_dns_cloudflare.Provider.Exact.{mutations, after}
use external_dns_cloudflare.Provider.Exact.Planned.{planned_calls}
use external_dns_cloudflare.Webhook.Start.{Network, Server}
use external_dns_cloudflare.Webhook.Start.Served.{Serves, start-records, start-planned}
use external_dns_cloudflare.Tests.Provider.{changes}
use external_dns_cloudflare.Tests.Start.{server_on, server-started, cluster, library, direct}
use external_dns_cloudflare.Tests.Cloudflare.{two_routes, two_total}

-- One tunnel has two routes, which are all of the account.
abbrev has_routes : Option Text → Bool
has_routes none = true
has_routes (some tid) = tid == codes "t1"

abbrev routes_if : Bool → List HostnameRoute
routes_if true = two_routes
routes_if false = []

abbrev account : Text → List HostnameRoute
account tid = routes_if (has_routes (scope_of tid))

abbrev text_or_empty : Option Text → Text
text_or_empty none = []
text_or_empty (some t) = t

-- The body is the number of the page, after a letter that tells whether there are routes.
abbrev body_of : Bool → Text → Text
body_of true page = b'y' ∷ page
body_of false page = b'n' ∷ page

abbrev total_of : Text → ResultInfo
total_of [] = record two_total { total_count = 0 }
total_of (b ∷ page) = record two_total { total_count = length (routes_if (nat_eq b b'y')) }

abbrev page_routes : Text → List HostnameRoute
page_routes [] = []
page_routes (b ∷ page) =
    if not (nat_eq b b'y')
    then []
    else if page == codes "1"
    then take 1 two_routes
    else if page == codes "2"
    then take 1 (drop 1 two_routes)
    else []

abbrev decoded : Text → ApiResponse
decoded t = record {
  success = true;
  errors = [];
  messages = [];
  result = t;
  result_info = some (total_of t);
}

abbrev holder : Http
holder = record {
  send = λ req. ok (
    200,
    body_of (has_routes (lookup (codes "tunnel_id") req.query))
        (text_or_empty (lookup (codes "page") req.query)),
  );
  decode_envelope = λ t. some (decoded t);
  decode_route_list = λ t. some (page_routes t);
  decode_route = λ t. none;
}

abbrev serving : Network
serving = record { http_at = λ h. holder; pages = 3 }

abbrev served : Server
served = server_on serving

body_of-ne-nil : (b : Bool) (page : Text) → body_of b page ≢ []
body_of-ne-nil true page = λ e. cc
body_of-ne-nil false page = λ e. cc

page_of :
    (b : Bool) (k : ℕ)
    → k * 1 ≤ length (routes_if b)
    → page_routes (body_of b (decimal (k + 1))) ≡ take 1 (drop (k * 1) (routes_if b))
unfolding decimal ◌==◌
page_of true zero h = refl
page_of true (suc zero) h = refl
page_of true (suc (suc zero)) h = refl
page_of true (suc (suc (suc k))) h = absurd (omega arith)
page_of false zero h = refl
page_of false (suc k) h = absurd (omega arith)

short_of :
    (b : Bool) (k : ℕ)
    → k * 1 ≤ length (routes_if b)
    → length (body_of b (decimal (k + 1))) ≤ response_limit
unfolding decimal response_limit
short_of true zero h = omega arith
short_of true (suc zero) h = omega arith
short_of true (suc (suc zero)) h = omega arith
short_of true (suc (suc (suc k))) h = absurd (omega arith)
short_of false zero h = omega arith
short_of false (suc k) h = absurd (omega arith)

total_of-body :
    (b : Bool) (page : Text) → (total_of (body_of b page)).total_count ≡ length (routes_if b)
total_of-body true page = refl
total_of-body false page = refl

total_of-per_page : (b : Bool) (page : Text) → (total_of (body_of b page)).per_page ≡ 1
total_of-per_page true page = refl
total_of-per_page false page = refl

answers :
    (c : Client) (tid : Text) (k : ℕ) (req : Request)
    → AsksPage c tid (k + 1) req
    → holder.send req ≡ ok (200, body_of (has_routes (scope_of tid)) (decimal (k + 1)))
answers c tid k req asks = rw (asks.scope, asks.page_number) refl

fits_of : (b : Bool) → length (routes_if b) + 1 < int_half
fits_of true = omega arith
fits_of false = omega arith

enough_of : (b : Bool) → length (routes_if b) < 3
enough_of true = omega arith
enough_of false = omega arith

serving-Serves : (c : Client) (P : History → Type 0) → Serves serving c account P
serving-Serves c P calls tid p =
    let b = has_routes (scope_of tid) in
    (
      1,
      record {
        positive = omega arith;
        fits = fits_of b;
        raw = λ k. body_of b (decimal (k + 1));
        out = λ k. decoded (body_of b (decimal (k + 1)));
        info = λ k. total_of (body_of b (decimal (k + 1)));
        nonempty = λ k. body_of-ne-nil b _;
        short = λ k within. short_of b k within;
        decodes = λ k. refl;
        success = λ k. refl;
        counted = λ k. refl;
        info_per_page = λ k. total_of-per_page b _;
        info_total = λ k. total_of-body b _;
        page = λ k within. ap some (page_of b k within);
        answer = λ k req within asks. answers c tid k req asks;
      },
      enough_of b,
    )

either :
    (b : Bool) (m : Assoc Text) (c c' : Text × Text)
    → let out : Result Error (Assoc Text) × (Text × Text) = if b then (ok m, c) else (ok m, c') in
      out.0 ≡ ok m
either true m c c' = refl
either false m c c' = refl

-- The cluster takes every write.
served-IsWritable : IsWritable served.env.coredns
unfolding fragment_writer apply load lookup default_key ◌==◌ cut parse_rewrites split fields
served-IsWritable calls add remove = (
  desired_rewrites [] add remove,
  either (same_rewrites [] (desired_rewrites [] add remove)) _ _ _,
)

start-records_example :
    (records served.env served.state).0
    ≡ ok (endpoints_on served.env account (tunnels served.env.resolver))
start-records_example =
    start-records cluster serving library (λ raw. none) direct served (server-started serving)
      account (λ c same. serving-Serves c (λ calls. Unit {0})) served.state

start-planned_example :
    mutations (apply_changes served.env changes served.state).1.calls
    ≡ after (planned_calls served.env account changes) []
start-planned_example =
    start-planned cluster serving library (λ raw. none) direct served (server-started serving)
      account [] (λ c same. serving-Serves c (λ calls. mutations calls ≡ [])) served-IsWritable
      changes served.state refl
