-- ===== src/Webhook/TunnelMap.antt =====
-- `parseTunnelMap` of cmd/webhook/main.go.
pub mod RoundTrip
pub mod Accepted
use external_dns_cloudflare.Prelude.{
  none, refl, arith, append_assoc, ℕ, ◌++◌, Option, split, ◌∷◌, insert-NodupKeys, ok_injective,
  All-insert, inr, eq_iff, inl, cut, false, Bool-cases, Option-cases, [], ◌==◌, ok, some, NodupKeys,
  insert, ◌≡◌, trim_space, All, List, Assoc, Text,
}
use external_dns_cloudflare.Prelude.Strings.Trim.{
  IsTrimmed, IsTrimmed-StartsSolid, IsTrimmed-append, trim_space-IsTrimmed,
}
use external_dns_cloudflare.Prelude.Strings.Words.{Lacks, ne_nil-test}
use mathlib.Core.Path.{subst}
use external_dns_cloudflare.Webhook.{
  trimmed_sides, ParseError, pair_of, parse_pairs, parse_tunnel_map,
}
use external_dns_cloudflare.Webhook.Csv.{IsPart, split-join}

-- A domain and its tunnel, both trimmed and not empty
abbrev pub IsEntry : Text × Text → Type 0
IsEntry (domain, tid) = IsPart domain × IsPart tid

-- A map without a key twice, of such entries
pub record IsTunnelMap (m : Assoc Text) : Type 0 where
  pub entries : All IsEntry m
  pub nodup : NodupKeys m

trimmed-IsPart : (s : Text) → trim_space s == [] ≡ false → IsPart (trim_space s)
trimmed-IsPart s n = (trim_space-IsTrimmed s, λ z. cc ((eq_iff (trim_space s) []).1 z, n))

trimmed_sides-IsEntry :
    (sides : Option (Text × Text)) (e : Text × Text) → trimmed_sides sides ≡ some e → IsEntry e
unfolding trimmed_sides
trimmed_sides-IsEntry none e h = cc
trimmed_sides-IsEntry (some (before, after)) e h = elim (Bool-cases (trim_space before == [])) [
  | inl blank ↦ cc (rw blank at h)
  | inr word ↦ elim (Bool-cases (trim_space after == [])) [
    | inl blank ↦ cc (rw (word, blank) at h)
    | inr word' ↦
        let same : (trim_space before, trim_space after) ≡ e = cc (rw (word, word') at h) in
        subst IsEntry same (trimmed-IsPart before word, trimmed-IsPart after word')
  ]
]

pair_of-IsEntry : (pair : Text) (e : Text × Text) → pair_of pair ≡ some e → IsEntry e
unfolding pair_of
pair_of-IsEntry pair = trimmed_sides-IsEntry (cut b'=' pair)

insert-IsTunnelMap :
    (d t : Text) (m : Assoc Text) → IsEntry (d, t) → IsTunnelMap m → IsTunnelMap (insert d t m)
insert-IsTunnelMap d t m e good = record {
  entries = All-insert IsEntry d t m e good.entries;
  nodup = insert-NodupKeys d t m good.nodup;
}

parse_pairs-IsTunnelMap :
    (ps : List Text) (out m : Assoc Text)
    → IsTunnelMap out
    → parse_pairs ps out ≡ ok m
    → IsTunnelMap m
unfolding parse_pairs
parse_pairs-IsTunnelMap [] out m good h = subst IsTunnelMap (ok_injective out m h) good
parse_pairs-IsTunnelMap (raw ∷ ps) out m good h = elim (Bool-cases (trim_space raw == [])) [
  | inl blank ↦ parse_pairs-IsTunnelMap ps out m good (rw blank at h)
  | inr word ↦ elim (Option-cases (pair_of (trim_space raw))) [
    | inl absent ↦ cc (rw (word, absent) at h)
    | inr ((d, t), found) ↦
        parse_pairs-IsTunnelMap ps (insert d t out) m
          (insert-IsTunnelMap d t out (pair_of-IsEntry (trim_space raw) (d, t) found) good)
          (rw (word, found) at h)
  ]
]

-- A map that `parseTunnelMap` returns has no key twice, and its domains and tunnels are trimmed and
-- not empty.
pub parse_tunnel_map-IsTunnelMap :
    (s : Text) (m : Assoc Text) → parse_tunnel_map s ≡ ok m → IsTunnelMap m
unfolding parse_tunnel_map
parse_tunnel_map-IsTunnelMap s m h = elim (Bool-cases (trim_space s == [])) [
  | inl e ↦ subst IsTunnelMap (ok_injective [] m (rw e at h)) (record { entries = tt; nodup = tt })
  | inr e ↦
      parse_pairs-IsTunnelMap (split b',' s) [] m (record { entries = tt; nodup = tt }) (rw e at h)
]

-- A pair as it is written
abbrev pub pair_text : Text × Text → Text
pair_text (d, t) = d ++ b'=' ∷ t

-- Such an entry, if it can be written: the domain has no equality sign, and neither has a comma.
abbrev pub IsWritable : Text × Text → Type 0
IsWritable (d, t) = IsEntry (d, t) × Lacks b'=' d × Lacks b',' d × Lacks b',' t

cut_lem : (sep : ℕ) (d t : Text) → Lacks sep d → cut sep (d ++ sep ∷ t) ≡ some (d, t)
unfolding cut
cut_lem sep [] t _ = ground arith
cut_lem sep (c ∷ d) t (h, hs) = rw (h, cut_lem sep d t hs) refl

pub pair_text-IsTrimmed : (d t : Text) → IsEntry (d, t) → IsPart (pair_text (d, t))
pair_text-IsTrimmed [] t ((trimmed, n), _) = absurd (n refl)
pair_text-IsTrimmed (c ∷ d) t ((trimmed, n), (trimmed', n')) = (
  subst IsTrimmed (append_assoc (c ∷ d) (b'=' ∷ []) t)
      (IsTrimmed-append c (d ++ b'=' ∷ []) t (IsTrimmed-StartsSolid c d trimmed) trimmed' n'),
  λ e. cc,
)

pub pair_of-pair_text : (d t : Text) → IsWritable (d, t) → pair_of (pair_text (d, t)) ≡ some (d, t)
unfolding pair_of trimmed_sides
pair_of-pair_text d t (((trimmed, n), (trimmed', n')), free, _, _) =
    rw (cut_lem b'=' d t free, trimmed, trimmed', ne_nil-test d n, ne_nil-test t n') refl
