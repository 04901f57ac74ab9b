-- ===== src/Tests/Tunnel.antt =====
-- The theorems on internal/provider/tunnel.go, for two domains, one within the other.
use external_dns_cloudflare.Prelude.{
  trim_suffix, inr, to_lower, trim_prefix, trim_space, inl, ◌==◌, refl, some, ok, [], ◌≡◌, ◌∷◌,
  Assoc, Text, codes,
}
use external_dns_cloudflare.Prelude.Sort.{sort}
use external_dns_cloudflare.Tunnel.{
  first_match, normal_domain, TunnelResolver, new_map_tunnel_resolver, resolve, normal_hostname,
  entry_of, entry_less, carries,
}
use external_dns_cloudflare.Tunnel.Resolve.{
  SameEntries, IsCoherent, resolve-IsResolved, IsResolved, resolve-order_irrelevant,
}

abbrev outer : Text × Text
outer = (codes ".Example.com", codes "t1")

abbrev inner : Text × Text
inner = (codes "b.example.com", codes "t2")

abbrev two_domains : Assoc Text
two_domains = outer ∷ inner ∷ []

abbrev two_domains_back : Assoc Text
two_domains_back = inner ∷ outer ∷ []

abbrev two_tunnels : TunnelResolver
two_tunnels = record {
  entries =
      (record { domain = codes "b.example.com"; tunnel_id = codes "t2" })
      ∷ (record { domain = codes "example.com"; tunnel_id = codes "t1" })
      ∷ [];
  fallback = [];
  drain = [];
}

two_domains-built : new_map_tunnel_resolver two_domains ≡ ok two_tunnels
unfolding new_map_tunnel_resolver ◌==◌ normal_domain trim_space trim_prefix to_lower sort entry_less
    entry_of
two_domains-built = refl

two_domains_back-built : new_map_tunnel_resolver two_domains_back ≡ ok two_tunnels
unfolding new_map_tunnel_resolver ◌==◌ normal_domain trim_space trim_prefix to_lower sort entry_less
    entry_of
two_domains_back-built = refl

resolve_inner : resolve two_tunnels (codes "x.b.example.com.") ≡ some (codes "t2")
unfolding resolve ◌==◌ first_match carries normal_hostname to_lower trim_suffix
resolve_inner = refl

resolve-IsResolved_example :
    IsResolved two_domains
      (normal_hostname (codes "x.b.example.com."))
      (resolve two_tunnels (codes "x.b.example.com."))
resolve-IsResolved_example =
    resolve-IsResolved two_domains two_tunnels two_domains-built (codes "x.b.example.com.")

two_domains-SameEntries : SameEntries two_domains two_domains_back
two_domains-SameEntries e = (
  (λ h. elim h [ inl a ↦ inr (inl a) | inr (inl b) ↦ inl b | inr (inr c) ↦ absurd c ]),
  λ h. elim h [ inl a ↦ inr (inl a) | inr (inl b) ↦ inl b | inr (inr c) ↦ absurd c ],
)

entries_apart : ¬ ((entry_of outer).domain ≡ (entry_of inner).domain)
unfolding entry_of normal_domain trim_space trim_prefix to_lower
entries_apart e = cc

two_domains-IsCoherent : IsCoherent two_domains
two_domains-IsCoherent e f he hf same = elim he [
  | inl a ↦ elim hf [
    | inl b ↦ cc
    | inr (inl b) ↦ absurd (entries_apart cc)
    | inr (inr c) ↦ absurd c
  ]
  | inr (inl a) ↦ elim hf [
    | inl b ↦ absurd (entries_apart cc)
    | inr (inl b) ↦ cc
    | inr (inr c) ↦ absurd c
  ]
  | inr (inr c) ↦ absurd c
]

resolve-order_irrelevant_example :
    resolve two_tunnels (codes "x.b.example.com.") ≡ resolve two_tunnels (codes "x.b.example.com.")
resolve-order_irrelevant_example =
    resolve-order_irrelevant two_domains two_domains_back two_tunnels two_tunnels two_domains-built
      two_domains_back-built two_domains-SameEntries two_domains-IsCoherent
      (codes "x.b.example.com.")

abbrev draining : TunnelResolver
draining = record two_tunnels { drain = codes "t0" ∷ [] }
