-- ===== src/Webhook/Csv.antt =====
-- `splitCSV` of cmd/webhook/main.go.
use external_dns_cloudflare.Prelude.{
  ◌∙◌, append_assoc, false, ap, eq_iff, inr, inl, ◌==◌, refl, arith, trim_space, codes, Bool-cases,
  ◌≡◌, ◌∷◌, [], ℕ, All, ◌≢◌, join, split, List, Text,
}
use external_dns_cloudflare.Prelude.Strings.Trim.{
  IsTrimmed-StartsSolid, trim_space-ne-nil, IsTrimmed, trim_space-IsTrimmed,
}
use external_dns_cloudflare.Prelude.Strings.Words.{ne_nil-test, Lacks, split-append}
use external_dns_cloudflare.Webhook.{split_csv, trimmed_parts}

-- A part as it is put out
abbrev pub IsPart : Text → Type 0
IsPart p = IsTrimmed p × (p ≢ [])

trimmed_parts-IsPart : (ps : List Text) → All IsPart (trimmed_parts ps)
unfolding trimmed_parts
trimmed_parts-IsPart [] = tt
trimmed_parts-IsPart (p ∷ ps) = elim (Bool-cases (trim_space p == [])) [
  | inl e ↦ rw e (trimmed_parts-IsPart ps)
  | inr e ↦ rw e (
    (trim_space-IsTrimmed p, λ z. cc ((eq_iff (trim_space p) []).1 z, e)),
    trimmed_parts-IsPart ps,
  )
]

split_last : (sep : ℕ) (s : Text) → Lacks sep s → split sep s ≡ s ∷ []
unfolding split
split_last sep [] _ = refl
split_last sep (c ∷ s) (h, hs) = ground (arith, split_last sep s hs)

-- Parts that lack the separator are what the text that joins them is split into.
pub split-join :
    (sep : ℕ) (p : Text) (ps : List Text)
    → All (Lacks sep) (p ∷ ps)
    → split sep (join (p ∷ ps) (sep ∷ [])) ≡ p ∷ ps
unfolding join
split-join sep p [] (h, _) = split_last sep p h
split-join sep p (q ∷ ps) (h, hs) =
    ap (split sep) (append_assoc p (sep ∷ []) (join (q ∷ ps) (sep ∷ [])))
    ∙ split-append sep p (join (q ∷ ps) (sep ∷ [])) h
    ∙ ap (λ rest. p ∷ rest) (split-join sep q ps hs)

trimmed_parts_lem : (ps : List Text) → All IsPart ps → trimmed_parts ps ≡ ps
unfolding trimmed_parts
trimmed_parts_lem [] _ = refl
trimmed_parts_lem (p ∷ ps) ((t, n), rest) =
    rw (t, ne_nil-test p n) (ap (λ rest. p ∷ rest) (trimmed_parts_lem ps rest))

pub join_head :
    (c : ℕ) (s : Text) (ps : List Text) (sep : Text)
    → (rest : Text) × (join ((c ∷ s) ∷ ps) sep ≡ c ∷ rest)
unfolding join
join_head c s [] sep = (s, refl)
join_head c s (q ∷ ps) sep = (_, refl)

joined-ne-nil :
    (p : Text) (ps : List Text) → IsPart p → trim_space (join (p ∷ ps) (codes ",")) == [] ≡ false
joined-ne-nil [] ps (t, n) = absurd (n refl)
joined-ne-nil (c ∷ s) ps (t, n) =
    let head = join_head c s ps (codes ",") in
    rw head.1 (trim_space-ne-nil c head.0 (IsTrimmed-StartsSolid c s t))

-- What `splitCSV` puts out is trimmed and not empty, whatever it reads.
pub split_csv-IsPart : (s : Text) → All IsPart (split_csv s)
unfolding split_csv
split_csv-IsPart s = elim (Bool-cases (trim_space s == [])) [
  | inl e ↦ rw e tt
  | inr e ↦ rw e (trimmed_parts-IsPart (split b',' s))
]

-- `splitCSV` reads back a list that was joined by commas, if its parts are trimmed, not empty and
-- have no comma.
pub split_csv-join :
    (ps : List Text) → All IsPart ps → All (Lacks b',') ps → split_csv (join ps (codes ",")) ≡ ps
unfolding split_csv
split_csv-join [] _ _ = unfold join trim_space ◌==◌ in refl
split_csv-join (p ∷ ps) parts free =
    rw (joined-ne-nil p ps parts.0, split-join b',' p ps free) (trimmed_parts_lem (p ∷ ps) parts)
