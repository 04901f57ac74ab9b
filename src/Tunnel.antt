-- ===== src/Tunnel.antt =====
-- internal/provider/tunnel.go: which tunnel carries a hostname.
pub mod Resolve
pub mod Drain
use external_dns_cloudflare.Prelude.{
  ℕ, ◌-◌, Text, codes, ◌==◌, to_lower, trim_space, trim_prefix, trim_suffix, has_suffix, text_ltb,
  Bool, not, ◌&&◌, ◌||◌, Option, none, some, List, [], ◌∷◌, ◌++◌, if◌then◌else◌, ltb, nat_eq,
  length, Assoc, contains, add, Result, ok, err,
}
use external_dns_cloudflare.Prelude.Sort.{sort}

-- `tunnelTargetSuffix`
unfoldable pub tunnel_target_suffix : Text
tunnel_target_suffix = codes ".cfargotunnel.com"

pub record TunnelEntry : Type 0 where
  pub domain : Text
  pub tunnel_id : Text

-- `entries` is empty in single-tunnel mode, `fallback` is the empty text in multi-tunnel mode.
pub record TunnelResolver : Type 0 where
  pub entries : List TunnelEntry
  pub fallback : Text
  pub drain : List Text

pub data TunnelError : Type 0 where
  empty_map empty_domain : TunnelError
  empty_tunnel_id : Text → TunnelError
  both_configured_and_draining : Text → TunnelError

unfoldable pub new_single_tunnel_resolver : Text → TunnelResolver
new_single_tunnel_resolver tunnel_id = record { entries = []; fallback = tunnel_id; drain = [] }

-- The key of a map entry, as it is matched.
unfoldable pub normal_domain : Text → Text
normal_domain domain = trim_space (trim_prefix (to_lower domain) (codes "."))

-- What the loop over the map puts out for a key and its value
unfoldable pub entry_of : Text × Text → TunnelEntry
entry_of (domain, tid) = record { domain = normal_domain domain; tunnel_id = trim_space tid }

-- The loop over the map
unfoldable pub map_entries : Assoc Text → Result TunnelError (List TunnelEntry)
map_entries [] = ok []
map_entries ((domain, tid) ∷ m) =
    let rest = map_entries m in
    if normal_domain domain == []
    then err empty_domain
    else if trim_space tid == []
    then err (empty_tunnel_id domain)
    else elim rest [ err e ↦ err e | ok entries ↦ ok (entry_of (domain, tid) ∷ entries) ]

-- The `less` function: longest domain first, then by the bytes of the domain.
unfoldable pub entry_less : TunnelEntry → TunnelEntry → Bool
entry_less e f =
    if not (nat_eq (length e.domain) (length f.domain))
    then ltb (length f.domain) (length e.domain)
    else text_ltb e.domain f.domain

unfoldable pub new_map_tunnel_resolver : Assoc Text → Result TunnelError TunnelResolver
unfolding map_entries
new_map_tunnel_resolver [] = err empty_map
new_map_tunnel_resolver (p ∷ m) = elim (map_entries (p ∷ m)) [
  | err e ↦ err e
  | ok entries ↦ ok (record { entries = sort entry_less entries; fallback = []; drain = [] })
]

-- The test in the loop of `resolve`
unfoldable pub carries : Text → Text → Bool
carries h domain = h == domain || has_suffix h (b'.' ∷ domain)

unfoldable pub first_match : Text → List TunnelEntry → Option Text
first_match h [] = none
first_match h (e ∷ es) = if carries h e.domain then some e.tunnel_id else first_match h es

-- The hostname as it is matched
unfoldable pub normal_hostname : Text → Text
normal_hostname hostname = to_lower (trim_suffix hostname (codes "."))

-- `("", false)` is `none`.
unfoldable pub resolve : TunnelResolver → Text → Option Text
resolve r hostname =
    if not (r.fallback == [])
    then some r.fallback
    else first_match (normal_hostname hostname) r.entries

unfoldable pub target : Text → Text
target tunnel_id = tunnel_id ++ tunnel_target_suffix

unfoldable pub target_for : TunnelResolver → Text → Option Text
target_for r hostname = elim (resolve r hostname) [ none ↦ none | some tid ↦ some (target tid) ]

-- The loop of `configured`, over the entries and what it has put out so far.
unfoldable pub distinct_ids : List TunnelEntry → List Text → List Text
distinct_ids [] out = out
distinct_ids (e ∷ es) out = distinct_ids es (add e.tunnel_id out)

unfoldable pub configured : TunnelResolver → List Text
unfolding distinct_ids
configured r = if not (r.fallback == []) then r.fallback ∷ [] else distinct_ids r.entries []

-- The loop of `setDrain`. The set `seen` holds what `drain` holds.
unfoldable pub drain_ids : List Text → List Text → List Text → Result TunnelError (List Text)
drain_ids conf [] drain = ok drain
drain_ids conf (raw ∷ ids) drain =
    let id = trim_space raw in
    let skip = drain_ids conf ids drain in
    let take_it = drain_ids conf ids (drain ++ id ∷ []) in
    if id == []
    then skip
    else if contains id conf
    then err (both_configured_and_draining id)
    else if contains id drain
    then skip
    else take_it

unfoldable pub set_drain : TunnelResolver → List Text → Result TunnelError TunnelResolver
unfolding drain_ids
set_drain r ids = elim (drain_ids (configured r) ids []) [
  | err e ↦ err e
  | ok drain ↦ ok (record r { drain = drain })
]

unfoldable pub tunnels : TunnelResolver → List Text
tunnels r = configured r ++ r.drain
