-- ===== src/Cloudflare/Paging.antt =====
-- The pagination loop of `ListHostnameRoutes` in internal/cloudflare/client.go.
pub mod Ends
use external_dns_cloudflare.Prelude.{
  length-drop, take_all, length-take, sym, Bool-cases, ap, inl, ◌∙◌, true, take-append-take, inr,
  refl, ◌++◌, drop, [], Result-cases, ◌*◌, take, length, Result, Option, arith, zero, suc, none,
  ◌≤◌, ◌+◌, false, ok, ◌<◌, some, ◌≡◌, List, ℕ, Text, leb, nat_eq, ◌||◌, ◌⊎◌, ◌≢◌,
}
use external_dns_cloudflare.Prelude.Ints.{
  int_half, next_int, next_int_small, mul_int_small, leb_int_small,
}
use external_dns_cloudflare.Cloudflare.{
  Client, Http, HostnameRoute, ResultInfo, fetch_page, is_last, list_loop, list_hostname_routes,
}

pub le-mul_pos : (page n : ℕ) → 0 < n → page ≤ page * n
le-mul_pos page n h = grind arith

-- One round of the loop: an error, the last page, or another page.
module _ (c : Client) (http : Http) (tunnel_id : Text) (fuel page : ℕ)
    (all : List HostnameRoute) where
  list_loop-last :
      (batch : List HostnameRoute) (info : Option ResultInfo)
      → fetch_page c http tunnel_id page ≡ ok (batch, info)
      → is_last page batch info ≡ true
      → list_loop c http tunnel_id (suc fuel) page all ≡ some (ok (all ++ batch))
  unfolding list_loop
  list_loop-last batch info e last = rw (list_loop, e, last)

  list_loop-more :
      (batch : List HostnameRoute) (info : Option ResultInfo)
      → fetch_page c http tunnel_id page ≡ ok (batch, info)
      → is_last page batch info ≡ false
      → list_loop c http tunnel_id (suc fuel) page all
        ≡ list_loop c http tunnel_id fuel (next_int page) (all ++ batch)
  unfolding list_loop
  list_loop-more batch info e more = rw (list_loop, e, more)

-- The test on numbers that fit into an `int`
is_last_small :
    (page : ℕ) (batch : List HostnameRoute) (info : ResultInfo)
    → info.total_count < int_half
    → page * info.per_page < int_half
    → is_last page batch (some info) ≡ (
        nat_eq info.per_page 0
        || leb info.total_count (page * info.per_page)
        || nat_eq (length batch) 0)
unfolding is_last
is_last_small page batch info total fits =
    rw
      (
        is_last,
        mul_int_small page info.per_page (omega (arith, fits)),
        leb_int_small info.total_count (page * info.per_page) total fits,
      )
      refl

-- If the loop goes on, the totals are above the page.
continues_below :
    (page : ℕ) (batch : List HostnameRoute) (info : ResultInfo)
    → info.total_count < int_half
    → page * info.per_page < int_half
    → is_last page batch (some info) ≡ false
    → page < info.total_count
continues_below page batch info total fits h =
    ground (arith, is_last_small page batch info total fits, le-mul_pos page info.per_page)

-- A server that holds `routes`, and answers page by page, as far as its routes go.
pub record ServesPages (c : Client) (http : Http) (tunnel_id : Text) (per_page : ℕ)
    (routes : List HostnameRoute) : Type 0 where
  pub positive : 0 < per_page
  -- The number of the routes and the size of a page fit into an `int`, with a page to spare.
  pub fits : length routes + per_page < int_half
  pub info : ℕ → ResultInfo
  pub info_per_page : (k : ℕ) → (info k).per_page ≡ per_page
  pub info_total : (k : ℕ) → (info k).total_count ≡ length routes
  pub answer :
      (k : ℕ)
      → k * per_page ≤ length routes
      → fetch_page c http tunnel_id (k + 1)
        ≡ ok (take per_page (drop (k * per_page) routes), some (info k))

module _ (c : Client) (http : Http) (tunnel_id : Text) (per_page : ℕ) (routes : List HostnameRoute)
    (server : ServesPages c http tunnel_id per_page routes) where
  next_take :
      (k : ℕ)
      → take (k * per_page) routes ++ take per_page (drop (k * per_page) routes)
        ≡ take ((k + 1) * per_page) routes
  next_take k =
      take-append-take (k * per_page) per_page routes ∙ ap (λ n. take n routes) (grind arith)

  product_fits :
      (k : ℕ) → k * per_page ≤ length routes → (k + 1) * (server.info k).per_page < int_half
  product_fits k within =
      let e : (k + 1) * per_page ≡ k * per_page + per_page = grind arith in
      rw (server.info_per_page k) (omega (arith, server.fits, e))

  total_fits : (k : ℕ) → (server.info k).total_count < int_half
  total_fits k = rw (server.info_total k) (omega (arith, server.fits))

  last_small : (k : ℕ) → k * per_page ≤ length routes → k + 1 < int_half
  last_small k within =
      omega (arith, server.fits, server.positive, le-mul_pos k per_page server.positive)

  last_complete :
      (k : ℕ)
      → k * per_page ≤ length routes
      → is_last (k + 1) (take per_page (drop (k * per_page) routes)) (some (server.info k)) ≡ true
      → length routes ≤ (k + 1) * per_page
  last_complete k within h = ground (
    arith,
    is_last_small (k + 1) (take per_page (drop (k * per_page) routes)) (server.info k)
        (total_fits k) (product_fits k within),
    server.positive,
    server.info_per_page k,
    server.info_total k,
    length-take per_page (drop (k * per_page) routes),
    length-drop (k * per_page) routes,
    (let e : (k + 1) * per_page ≡ k * per_page + per_page = grind arith in e),
  )

  next_within :
      (k : ℕ) (batch : List HostnameRoute)
      → k * per_page ≤ length routes
      → is_last (k + 1) batch (some (server.info k)) ≡ false
      → (k + 1) * per_page ≤ length routes
  next_within k batch within h = ground (
    arith,
    is_last_small (k + 1) batch (server.info k) (total_fits k) (product_fits k within),
    server.info_per_page k,
    server.info_total k,
  )

  list_loop_complete :
      (fuel k : ℕ)
      → 0 < fuel
      → k * per_page ≤ length routes
      → length routes < fuel + (k + 1)
      → list_loop c http tunnel_id fuel (k + 1) (take (k * per_page) routes) ≡ some (ok routes)
  unfolding list_loop
  list_loop_complete zero k pos within h = absurd (omega arith)
  list_loop_complete (suc fuel) k pos within h =
      let batch = take per_page (drop (k * per_page) routes) in
      let all = take (k * per_page) routes in
      elim (Bool-cases (is_last (k + 1) batch (some (server.info k)))) [
        | inl last ↦
            list_loop-last c http tunnel_id fuel (k + 1) all batch _ (server.answer k within) last
            ∙ ap (λ l. some (ok l)) (next_take k ∙ take_all _ routes (last_complete k within last))
        | inr more ↦
            let below =
              continues_below (k + 1) batch (server.info k) (total_fits k) (product_fits k within)
                more in
            list_loop-more c http tunnel_id fuel (k + 1) all batch _ (server.answer k within) more
            ∙ ap (λ page. list_loop c http tunnel_id fuel page (all ++ batch))
                (next_int_small (k + 1) (omega (arith, last_small k within)))
            ∙ ap (list_loop c http tunnel_id fuel (k + 1 + 1)) (next_take k)
            ∙ list_loop_complete fuel (k + 1) (omega (arith, server.info_total k))
                (next_within k batch within more) (omega (arith, server.info_total k))
      ]

  -- From a server that holds a list of routes and answers page by page, `ListHostnameRoutes` returns
  -- that list, in order, if it has more rounds than the list has routes, and the number of the routes
  -- fits into an `int`, with a page to spare.
  pub list_hostname_routes_complete :
      (fuel : ℕ)
      → length routes < fuel
      → list_hostname_routes c http fuel tunnel_id ≡ some (ok routes)
  unfolding list_hostname_routes
  list_hostname_routes_complete fuel h =
      let none_yet : take (0 * per_page) routes ≡ [] =
        ap (λ n. take n routes) (let e : 0 * per_page ≡ 0 = omega arith in e) in
      sym (ap (list_loop c http tunnel_id fuel 1) none_yet)
      ∙ list_loop_complete fuel 0 (omega arith) (omega arith) (omega arith)
