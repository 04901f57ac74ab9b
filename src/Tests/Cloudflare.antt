-- ===== src/Tests/Cloudflare.antt =====
-- The theorems on internal/cloudflare/client.go, for a server with two routes and pages of one.
use external_dns_cloudflare.Prelude.{
  decimal, zero, suc, ◌*◌, refl, arith, drop, take, ◌≡◌, ◌+◌, ◌≤◌, ℕ, ◌==◌, none, insert, some,
  true, if◌then◌else◌, ◌∷◌, [], lookup, codes, ok, Option, List, Text,
}
use external_dns_cloudflare.Prelude.Ints.{itoa, leb_int, mul_int, next_int}
use external_dns_cloudflare.Cloudflare.{
  Client, Http, HostnameRoute, ResultInfo, ApiResponse, fetch_page, list_hostname_routes, call,
  response_limit, page_query, is_last,
}
use external_dns_cloudflare.Cloudflare.Paging.{ServesPages, list_hostname_routes_complete}

abbrev route_named : Text → HostnameRoute
route_named name = record {
  id = name;
  hostname = name;
  tunnel_id = codes "t1";
  tunnel_name = [];
  tun_type = [];
  comment = [];
  created_at = none;
  deleted_at = none;
}

abbrev pub two_routes : List HostnameRoute
two_routes = route_named (codes "a") ∷ route_named (codes "b") ∷ []

abbrev pub two_total : ResultInfo
two_total = record { page = 1; per_page = 1; count = 1; total_count = 2 }

abbrev page_text : Option Text → Text
page_text none = []
page_text (some t) = t

abbrev page_routes : Text → List HostnameRoute
page_routes t =
    if t == codes "1"
    then route_named (codes "a") ∷ []
    else if t == codes "2"
    then route_named (codes "b") ∷ []
    else []

abbrev envelope : Text → ApiResponse
envelope t = record {
  success = true;
  errors = [];
  messages = [];
  result = t;
  result_info = some two_total;
}

-- It answers with the number of the page that was asked for.
abbrev pub server : Http
server = record {
  send = λ req. ok (200, page_text (lookup (codes "page") req.query));
  decode_envelope = λ t. some (envelope t);
  decode_route_list = λ t. some (page_routes t);
  decode_route = λ t. none;
}

abbrev client : Client
client = record {
  account_id = codes "acc";
  base_url = codes "u";
  token = codes "secret";
  headers = [];
}

page_of :
    (k : ℕ)
    → k * 1 ≤ 2
    → fetch_page client server (codes "t1") (k + 1)
      ≡ ok (take 1 (drop (k * 1) two_routes), some two_total)
unfolding fetch_page call lookup insert ◌==◌ response_limit decimal page_query itoa
page_of zero h = refl
page_of (suc zero) h = refl
page_of (suc (suc zero)) h = refl
page_of (suc (suc (suc k))) h = absurd (omega arith)

server-ServesPages : ServesPages client server (codes "t1") 1 two_routes
server-ServesPages = record {
  positive = omega arith;
  fits = omega arith;
  info = λ k. two_total;
  info_per_page = λ k. refl;
  info_total = λ k. refl;
  answer = page_of;
}

list_hostname_routes_complete_example :
    list_hostname_routes client server 3 (codes "t1") ≡ some (ok two_routes)
list_hostname_routes_complete_example =
    list_hostname_routes_complete client server (codes "t1") 1 two_routes server-ServesPages 3
      (omega arith)

-- A server with pages of minus one route, two of which have a route
abbrev odd_server : Http
odd_server = record server {
  decode_envelope = λ t. some (record {
    success = true;
    errors = [];
    messages = [];
    result = t;
    result_info =
        some (record { page = 1; per_page = 18446744073709551615; count = 1; total_count = 7 });
  });
}

-- The loop asks it for three pages.
odd_server-ends : list_hostname_routes client odd_server 3 (codes "t1") ≡ some (ok two_routes)
unfolding list_hostname_routes fetch_page call lookup insert ◌==◌ response_limit decimal page_query
    itoa is_last leb_int mul_int next_int
odd_server-ends = refl
