-- ===== src/Tunnel/Drain/Nonempty.antt =====
-- A resolver of internal/provider/tunnel.go that has been built lists a tunnel.
use external_dns_cloudflare.Prelude.{
  length, inr, ap, inl, refl, map, arith, Bool-cases, ok, ◌∷◌, ◌++◌, Assoc, [], contains, ◌≢◌, ◌==◌,
  Text, add, List, ◌≡◌, ◌||◌, false,
}
use external_dns_cloudflare.Prelude.Sort.{sort, length-sort}
use external_dns_cloudflare.Tunnel.{
  TunnelEntry, TunnelResolver, entry_less, entry_of, distinct_ids, configured, tunnels,
  new_single_tunnel_resolver, new_map_tunnel_resolver, set_drain,
}
use external_dns_cloudflare.Tunnel.Resolve.{resolver_entries}
use external_dns_cloudflare.Tunnel.Drain.{set_drain-SetDrain}

append-ne-nil : (xs ys : List Text) → xs ≢ [] → xs ++ ys ≢ []
append-ne-nil [] ys n = absurd (n refl)
append-ne-nil (x ∷ xs) ys n = λ e. cc

add-ne-nil : (k : Text) (s : List Text) → add k s ≢ []
unfolding add contains
add-ne-nil k [] = λ e. cc
add-ne-nil k (j ∷ s) = elim (Bool-cases (j == k || contains k s)) [
  | inl old ↦ rw old (λ e. cc)
  | inr new ↦ rw new (λ e. cc)
]

distinct_ids-ne-nil :
    (es : List TunnelEntry) (out : List Text) → out ≢ [] → distinct_ids es out ≢ []
unfolding distinct_ids
distinct_ids-ne-nil [] out n = n
distinct_ids-ne-nil (e ∷ es) out n =
    distinct_ids-ne-nil es (add e.tunnel_id out) (add-ne-nil e.tunnel_id out)

some_ids : (es : List TunnelEntry) → es ≢ [] → distinct_ids es [] ≢ []
unfolding distinct_ids
some_ids [] n = absurd (n refl)
some_ids (e ∷ es) n = distinct_ids-ne-nil es (add e.tunnel_id []) (add-ne-nil e.tunnel_id [])

sort-ne-nil : (es : List TunnelEntry) → es ≢ [] → sort entry_less es ≢ []
sort-ne-nil [] n = absurd (n refl)
sort-ne-nil (e ∷ es) n = λ z. absurd ((omega (arith, length-sort entry_less (e ∷ es), ap length z)))

pub configured-single :
    (tid : Text) → tid == [] ≡ false → configured (new_single_tunnel_resolver tid) ≢ []
unfolding configured new_single_tunnel_resolver
configured-single tid n = rw n (λ e. cc)

pub configured-map :
    (m : Assoc Text) (r : TunnelResolver) → new_map_tunnel_resolver m ≡ ok r → configured r ≢ []
unfolding configured new_map_tunnel_resolver ◌==◌
configured-map [] r h = cc
configured-map (p ∷ m) r h =
    let (entries, alone) = resolver_entries (p ∷ m) r h in
    rw (alone, entries) (some_ids _ (sort-ne-nil (map entry_of (p ∷ m)) (λ e. cc)))

-- The tunnels that it lists are not fewer once some are draining.
pub set_drain-ne-nil :
    (r r' : TunnelResolver) (ids : List Text)
    → configured r ≢ []
    → set_drain r ids ≡ ok r'
    → tunnels r' ≢ []
unfolding tunnels
set_drain-ne-nil r r' ids n done =
    let after = set_drain-SetDrain r r' ids done in
    rw after.same_configured (append-ne-nil (configured r) r'.drain n)
