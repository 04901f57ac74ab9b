-- ===== src/Cloudflare/Pages.antt =====
-- internal/cloudflare/client.go: a list as a server sees it, by the requests that ask for its pages.
use external_dns_cloudflare.Prelude.{
  ◌*◌, ◌+◌, ◌<◌, ◌≤◌, ℕ, length, take, drop, take_all, ◌∷◌, [], List, Text, codes, ◌≡◌, ◌≢◌, refl,
  ap, ◌∙◌, some, none, ok, Option, if◌then◌else◌, ◌==◌, ◌++◌, lookup, insert, decimal, true, arith,
  Assoc,
}
use external_dns_cloudflare.Prelude.Ints.{int_half, itoa_small}
use external_dns_cloudflare.Cloudflare.{
  Client, Http, HostnameRoute, ResultInfo, ApiResponse, Request, Body, no_body, call, fetch_page,
  page_query, routes_path, response_limit, headers_of,
}
use external_dns_cloudflare.Cloudflare.Paging.{ServesPages, le-mul_pos}

-- The tunnel that a query names; the blank one is that of the whole account.
abbrev pub scope_of : Text → Option Text
scope_of tunnel_id = if tunnel_id == [] then none else some tunnel_id

-- A request for a page of the hostname routes of a tunnel, by what a server reads of it
pub record AsksPage (c : Client) (tunnel_id : Text) (page : ℕ) (req : Request) : Type 0 where
  pub method : req.method ≡ codes "GET"
  pub url :
      req.url
      ≡ c.base_url ++ (codes "/accounts/" ++ c.account_id ++ codes "/zerotrust/routes/hostname")
  pub scope : lookup (codes "tunnel_id") req.query ≡ scope_of tunnel_id
  pub page_number : lookup (codes "page") req.query ≡ some (decimal page)
  pub page_size : lookup (codes "per_page") req.query ≡ some (codes "100")

-- A server that holds `routes` for a tunnel: it answers each request for a page of them with a body
-- that decodes to that page.
pub record HoldsPages (c : Client) (http : Http) (tunnel_id : Text) (per_page : ℕ)
    (routes : List HostnameRoute) : Type 0 where
  pub positive : 0 < per_page
  pub fits : length routes + per_page < int_half
  pub raw : ℕ → Text
  pub out : ℕ → ApiResponse
  pub info : ℕ → ResultInfo
  pub nonempty : (k : ℕ) → raw k ≢ []
  pub short : (k : ℕ) → k * per_page ≤ length routes → length (raw k) ≤ response_limit
  pub decodes : (k : ℕ) → http.decode_envelope (raw k) ≡ some (out k)
  pub success : (k : ℕ) → (out k).success ≡ true
  pub counted : (k : ℕ) → (out k).result_info ≡ some (info k)
  pub info_per_page : (k : ℕ) → (info k).per_page ≡ per_page
  pub info_total : (k : ℕ) → (info k).total_count ≡ length routes
  pub page :
      (k : ℕ)
      → k * per_page ≤ length routes
      → http.decode_route_list (out k).result ≡ some (take per_page (drop (k * per_page) routes))
  pub answer :
      (k : ℕ) (req : Request)
      → k * per_page ≤ length routes
      → AsksPage c tunnel_id (k + 1) req
      → http.send req ≡ ok (200, raw k)

module _ (c : Client) (http : Http) where
  -- An answer that is decoded and succeeds
  call-ok :
      (method path : Text) (query : Assoc Text) (body : Body) (raw : Text) (out : ApiResponse)
      → http.send (record {
        method = method;
        url = c.base_url ++ path;
        query = query;
        request_headers = headers_of c;
        body = body;
      })
        ≡ ok (200, raw)
      → raw ≢ []
      → length raw ≤ response_limit
      → http.decode_envelope raw ≡ some out
      → out.success ≡ true
      → call c http method path query body ≡ ok out
  unfolding call
  call-ok method path query body [] out sent full short decoded success = absurd (full refl)
  call-ok method path query body (b ∷ raw) out sent full short decoded success =
      rw (call, sent, take_all response_limit (b ∷ raw) short, decoded, success) refl

  fetch_page-ok :
      (tunnel_id : Text) (page : ℕ) (out : ApiResponse) (batch : List HostnameRoute)
      → call c http (codes "GET") (routes_path c) (page_query tunnel_id page) no_body ≡ ok out
      → http.decode_route_list out.result ≡ some batch
      → fetch_page c http tunnel_id page ≡ ok (batch, out.result_info)
  unfolding fetch_page
  fetch_page-ok tunnel_id page out batch called decoded = rw (fetch_page, called, decoded) refl

-- The query of a page says what it is for.
query_scope :
    (tunnel_id : Text) (page : ℕ)
    → lookup (codes "tunnel_id") (page_query tunnel_id page) ≡ scope_of tunnel_id
unfolding page_query insert lookup ◌==◌
query_scope [] page = refl
query_scope (x ∷ tunnel_id) page = refl

query_page :
    (tunnel_id : Text) (page : ℕ)
    → page < int_half
    → lookup (codes "page") (page_query tunnel_id page) ≡ some (decimal page)
unfolding page_query insert lookup ◌==◌
query_page [] page small = ap some (itoa_small page small)
query_page (x ∷ tunnel_id) page small = ap some (itoa_small page small)

query_size :
    (tunnel_id : Text) (page : ℕ)
    → lookup (codes "per_page") (page_query tunnel_id page) ≡ some (codes "100")
unfolding page_query insert lookup ◌==◌
query_size [] page = refl
query_size (x ∷ tunnel_id) page = refl

module _ (c : Client) (http : Http) (tunnel_id : Text) (per_page : ℕ) (routes : List HostnameRoute)
    (server : HoldsPages c http tunnel_id per_page routes) where
  asks :
      (k : ℕ)
      → k * per_page ≤ length routes
      → AsksPage c tunnel_id (k + 1) (record {
        method = codes "GET";
        url = c.base_url ++ routes_path c;
        query = page_query tunnel_id (k + 1);
        request_headers = headers_of c;
        body = no_body;
      })
  unfolding routes_path
  asks k within = record {
    method = refl;
    url = refl;
    scope = query_scope tunnel_id (k + 1);
    page_number =
        query_page tunnel_id (k + 1)
          (omega (arith, server.fits, server.positive, le-mul_pos k per_page server.positive));
    page_size = query_size tunnel_id (k + 1);
  }

  -- Such a server serves the pages that the loop asks for.
  pub HoldsPages-ServesPages : ServesPages c http tunnel_id per_page routes
  HoldsPages-ServesPages = record {
    positive = server.positive;
    fits = server.fits;
    info = server.info;
    info_per_page = server.info_per_page;
    info_total = server.info_total;
    answer = λ k within.
        fetch_page-ok c http tunnel_id (k + 1) (server.out k) _
          (call-ok c http (codes "GET") (routes_path c) (page_query tunnel_id (k + 1)) no_body
            (server.raw k) (server.out k) (server.answer k _ within (asks k within))
            (server.nonempty k) (server.short k within) (server.decodes k) (server.success k))
          (server.page k within)
        ∙ ap (λ i. ok (take per_page (drop (k * per_page) routes), i)) (server.counted k);
  }
