-- ===== src/Tunnel/Resolve.antt =====
-- `resolve` of internal/provider/tunnel.go picks the most specific domain, in whatever order the
-- map was visited.
use mathlib.Core.Path.{subst}
use external_dns_cloudflare.Prelude.{
  Option, Option-cases, All-Any, append_assoc, All-map_iff, Any-map_iff, Result-cases, map, ◌≤◌,
  ◌≡◌, ◌↔◌, inl, inr, refl, sym, ap, ◌∙◌, Text, ◌==◌, eq_iff, true, false, none, some, List, [],
  ◌∷◌, ◌++◌, arith, Bool-cases, length, length-append, All, Any, All-mono, Assoc, ok, drop,
  drop-length-append,
}
use external_dns_cloudflare.Prelude.Sort.{
  All-sort_back, Any-sort_back, sort, IsSorted, sort-IsSorted,
}
use external_dns_cloudflare.Tunnel.{
  entry_of, TunnelEntry, TunnelResolver, map_entries, entry_less, new_map_tunnel_resolver, carries,
  first_match, normal_hostname, resolve,
}
use external_dns_cloudflare.Prelude.Strings.Affix.{has_suffix→append}

-- The domain of the longest match first.
abbrev LongerFirst : TunnelEntry → TunnelEntry → Type 0
LongerFirst e f = length f.domain ≤ length e.domain

less_below : (e f : TunnelEntry) → entry_less f e ≡ true → LongerFirst f e
unfolding entry_less
less_below e f h = ground arith

less_above : (e f : TunnelEntry) → entry_less f e ≡ false → LongerFirst e f
unfolding entry_less
less_above e f h = ground arith

entries-IsSorted : (es : List TunnelEntry) → IsSorted entry_less LongerFirst (sort entry_less es)
entries-IsSorted es =
    sort-IsSorted entry_less LongerFirst less_below less_above (λ x y z p q. omega arith) es

-- The map has `e` among its entries.
abbrev pub HasEntry : Assoc Text → TunnelEntry → Type 0
HasEntry m e = Any (λ p. entry_of p ≡ e) m

-- No other domain of the map that carries the hostname is longer than `e`'s.
abbrev pub IsLongest : Text → TunnelEntry → Assoc Text → Type 0
IsLongest h e =
    All (λ p. carries h (entry_of p).domain ≡ true → length (entry_of p).domain ≤ length e.domain)

-- The first match of a list with the longest domains first.
abbrev Longest : Text → Text → List TunnelEntry → Type 0
Longest h tid es =
    (e : TunnelEntry) × Any (λ f. f ≡ e) es
    × (carries h e.domain ≡ true)
    × (e.tunnel_id ≡ tid)
    × All (λ f. carries h f.domain ≡ true → length f.domain ≤ length e.domain) es

first_match-Longest :
    (h tid : Text) (es : List TunnelEntry)
    → IsSorted entry_less LongerFirst es
    → first_match h es ≡ some tid
    → Longest h tid es
unfolding first_match
first_match-Longest h tid [] s p = cc
first_match-Longest h tid (e ∷ es) (first, rest) p = elim (Bool-cases (carries h e.domain)) [
  | inl hit ↦ (
    e,
    inl refl,
    hit,
    (ground arith),
    (
      (λ _. omega arith),
      All-mono (LongerFirst e) (λ f. carries h f.domain ≡ true → length f.domain ≤ length e.domain)
          es (λ f le _. le) first,
    ),
  )
  | inr miss ↦
      let found : Longest h tid es = first_match-Longest h tid es rest (ground arith) in
      (found.0, inr found.1, found.2, found.3, ((λ hit. cc (hit, miss)), found.4))
]

first_match-none :
    (h : Text) (es : List TunnelEntry)
    → first_match h es ≡ none
    → All (λ f. carries h f.domain ≡ false) es
unfolding first_match
first_match-none h [] p = tt
first_match-none h (e ∷ es) p = elim (Bool-cases (carries h e.domain)) [
  | inl hit ↦ ground arith
  | inr miss ↦ (miss, first_match-none h es (ground arith))
]

map_entries-map :
    (m : Assoc Text) (es : List TunnelEntry) → map_entries m ≡ ok es → es ≡ map entry_of m
unfolding map_entries
map_entries-map [] es h = ground arith
map_entries-map ((d, t) ∷ m) es h = elim (Result-cases (map_entries m)) [
  | inl (rest, e) ↦ ground (arith, map_entries-map m rest e)
  | inr (x, e) ↦ ground arith
]

-- A resolver that was built from a map holds the entries of the map, sorted.
pub resolver_entries :
    (m : Assoc Text) (r : TunnelResolver)
    → new_map_tunnel_resolver m ≡ ok r
    → (r.entries ≡ sort entry_less (map entry_of m)) × (r.fallback ≡ [])
unfolding new_map_tunnel_resolver
resolver_entries [] r h = cc
resolver_entries (p ∷ m) r h = elim (Result-cases (map_entries (p ∷ m))) [
  | inl (es, e) ↦ ground (arith, map_entries-map (p ∷ m) es e)
  | inr (x, e) ↦ ground arith
]

-- What a name resolves to: the tunnel of the entry that carries it with the longest domain, or none
-- if no entry carries it
abbrev pub IsResolved : Assoc Text → Text → Option Text → Type 0
IsResolved m name none = All (λ p. carries name (entry_of p).domain ≡ false) m
IsResolved m name (some tid) =
    (e : TunnelEntry) × HasEntry m e
    × (carries name e.domain ≡ true)
    × (e.tunnel_id ≡ tid)
    × IsLongest name e m

module _ (m : Assoc Text) (r : TunnelResolver) (built : new_map_tunnel_resolver m ≡ ok r) where
  resolve-first_match :
      (hostname : Text)
      → resolve r hostname
        ≡ first_match (normal_hostname hostname) (sort entry_less (map entry_of m))
  unfolding resolve
  resolve-first_match hostname =
      rw ((resolver_entries m r built).1, (resolver_entries m r built).0) (unfold ◌==◌ in refl)

  -- In a resolver that was built from a map, a hostname that resolves goes to the tunnel of an entry
  -- of the map that carries it, and no entry of the map that carries it has a longer domain.
  resolve-some :
      (hostname tid : Text)
      → resolve r hostname ≡ some tid
      → (e : TunnelEntry) × HasEntry m e
        × (carries (normal_hostname hostname) e.domain ≡ true)
        × (e.tunnel_id ≡ tid)
        × IsLongest (normal_hostname hostname) e m
  resolve-some hostname tid h =
      let name = normal_hostname hostname in
      let found : Longest name tid (sort entry_less (map entry_of m)) =
        first_match-Longest name tid _ (entries-IsSorted (map entry_of m))
          (sym (resolve-first_match hostname) ∙ h) in
      let e = found.0 in
      let entries = map entry_of m in
      (
        e,
        (Any-map_iff (λ f. f ≡ e) m entry_of).0
            (Any-sort_back entry_less (λ f. f ≡ e) entries found.1),
        found.2,
        found.3,
        (All-map_iff _ m entry_of).0 (
            All-sort_back entry_less
              (λ f. carries name f.domain ≡ true → length f.domain ≤ length e.domain) entries
              found.4),
      )

  -- In a resolver that was built from a map, no entry of the map carries a hostname that does not
  -- resolve.
  resolve-none :
      (hostname : Text)
      → resolve r hostname ≡ none
      → All (λ p. carries (normal_hostname hostname) (entry_of p).domain ≡ false) m
  resolve-none hostname h =
      let name = normal_hostname hostname in
      let entries = map entry_of m in
      (All-map_iff _ m entry_of).0 (
        All-sort_back entry_less (λ f. carries name f.domain ≡ false) entries
          (first_match-none name _ (sym (resolve-first_match hostname) ∙ h)))

  -- In a resolver that was built from a map, a hostname resolves to the tunnel of an entry of the map
  -- that carries it, where no entry of the map that carries it has a longer domain; or it does not
  -- resolve, and no entry of the map carries it.
  pub resolve-IsResolved :
      (hostname : Text) → IsResolved m (normal_hostname hostname) (resolve r hostname)
  resolve-IsResolved hostname =
      let Good = IsResolved m (normal_hostname hostname) in
      elim (Option-cases (resolve r hostname)) [
        | inl n ↦ subst Good (sym n) (resolve-none hostname n)
        | inr (tid, h) ↦ subst Good (sym h) (resolve-some hostname tid h)
      ]

-- Two suffixes of one text that are equally long are equal.
suffix_unique : (p q d d' : Text) → p ++ d ≡ q ++ d' → length d ≡ length d' → d ≡ d'
suffix_unique p q d d' e n =
    let same : length p ≡ length q =
      omega (arith, length-append p d, length-append q d', ap length e) in
    sym (drop-length-append p d)
    ∙ ap (drop (length p)) e
    ∙ ap (λ k. drop k (q ++ d')) same
    ∙ drop-length-append q d'

carries→append : (h d : Text) → carries h d ≡ true → (p : Text) × (h ≡ p ++ d)
unfolding carries
carries→append h d c = elim (Bool-cases (h == d)) [
  | inl e ↦ ([], (eq_iff h d).0 e)
  | inr e ↦
      let dotted = has_suffix→append h (b'.' ∷ d) (ground arith) in
      (dotted.0 ++ b'.' ∷ [], dotted.1 ∙ sym (append_assoc dotted.0 (b'.' ∷ []) d))
]

-- Of the domains that carry a hostname no two are equally long.
carries_unique :
    (h d d' : Text) → carries h d ≡ true → carries h d' ≡ true → length d ≡ length d' → d ≡ d'
carries_unique h d d' c c' n =
    let a = carries→append h d c in
    let b = carries→append h d' c' in suffix_unique a.0 b.0 d d' (sym a.1 ∙ b.1) n

-- The two maps have the same entries.
abbrev pub SameEntries : Assoc Text → Assoc Text → Type 0
SameEntries m m' = (e : TunnelEntry) → HasEntry m e ↔ HasEntry m' e

-- Keys of the map that are matched as one domain name one tunnel.
abbrev pub IsCoherent : Assoc Text → Type 0
IsCoherent m =
    (e f : TunnelEntry)
    → HasEntry m e
    → HasEntry m f
    → e.domain ≡ f.domain
    → e.tunnel_id ≡ f.tunnel_id

module _ (m m' : Assoc Text) (r r' : TunnelResolver) (built : new_map_tunnel_resolver m ≡ ok r)
    (built' : new_map_tunnel_resolver m' ≡ ok r') (same : SameEntries m m')
    (coherent : IsCoherent m) (hostname : Text) where
  longest_le :
      (e f : TunnelEntry) (n : Assoc Text)
      → IsLongest (normal_hostname hostname) e n
      → HasEntry n f
      → carries (normal_hostname hostname) f.domain ≡ true
      → length f.domain ≤ length e.domain
  longest_le e f n longest has hit =
      let at : (p : Text × Text) × (carries (normal_hostname hostname) (entry_of p).domain ≡ true
            → length (entry_of p).domain ≤ length e.domain)
          × (entry_of p ≡ f) =
        All-Any _ (λ p. entry_of p ≡ f) n longest has in
      rw (← at.2) (at.1 (rw at.2 hit))

  agree_some :
      (tid tid' : Text)
      → resolve r hostname ≡ some tid
      → resolve r' hostname ≡ some tid'
      → tid ≡ tid'
  agree_some tid tid' h h' =
      let a = resolve-some m r built hostname tid h in
      let b = resolve-some m' r' built' hostname tid' h' in
      let e = a.0 in
      let f = b.0 in
      let ef = longest_le e f m a.4 ((same f).1 b.1) b.2 in
      let fe = longest_le f e m' b.4 ((same e).0 a.1) a.2 in
      let one = carries_unique (normal_hostname hostname) e.domain f.domain a.2 b.2 (omega arith) in
      sym a.3 ∙ coherent e f a.1 ((same f).1 b.1) one ∙ b.3

  not_none :
      (tid : Text) (n : Assoc Text) (e : TunnelEntry)
      → All (λ p. carries (normal_hostname hostname) (entry_of p).domain ≡ false) n
      → HasEntry n e
      → carries (normal_hostname hostname) e.domain ≡ true
      → ⊥
  not_none tid n e none_hit has hit =
      let at : (p : Text × Text) × (carries (normal_hostname hostname) (entry_of p).domain ≡ false)
          × (entry_of p ≡ e) =
        All-Any _ (λ p. entry_of p ≡ e) n none_hit has in
      let miss : carries (normal_hostname hostname) e.domain ≡ false = rw (← at.2) at.1 in
      cc (hit, miss)

  -- Two resolvers that were built from maps with the same entries, in whatever order these were
  -- visited, resolve every hostname alike, if no two keys are matched as one domain and name
  -- different tunnels.
  pub resolve-order_irrelevant : resolve r hostname ≡ resolve r' hostname
  resolve-order_irrelevant = elim (Option-cases (resolve r hostname)) [
    | inl n ↦ elim (Option-cases (resolve r' hostname)) [
      | inl n' ↦ n ∙ sym n'
      | inr (tid, h') ↦
          let b = resolve-some m' r' built' hostname tid h' in
          absurd (not_none tid m b.0 (resolve-none m r built hostname n) ((same b.0).1 b.1) b.2)
    ]
    | inr (tid, h) ↦ elim (Option-cases (resolve r' hostname)) [
      | inl n' ↦
          let a = resolve-some m r built hostname tid h in
          absurd
            (not_none tid m' a.0 (resolve-none m' r' built' hostname n') ((same a.0).0 a.1) a.2)
      | inr (tid', h') ↦ h ∙ ap some (agree_some tid tid' h h') ∙ sym h'
    ]
  ]
