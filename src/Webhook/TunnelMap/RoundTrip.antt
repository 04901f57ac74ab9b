-- ===== src/Webhook/TunnelMap/RoundTrip.antt =====
-- `parseTunnelMap` of cmd/webhook/main.go reads back a map as it is written.
use external_dns_cloudflare.Prelude.{
  ◌∙◌, append_assoc, NodupKeys-absent, insert_absent, append-nil, sym, false, ap, ◌==◌, ok, ◌≡◌,
  codes, [], refl, ◌++◌, join, ◌∷◌, trim_space, map, NodupKeys, List, All-append, All, Text, Assoc,
}
use external_dns_cloudflare.Prelude.Strings.Trim.{IsTrimmed-StartsSolid, trim_space-ne-nil}
use external_dns_cloudflare.Prelude.Strings.Words.{Lacks, ne_nil-test}
use external_dns_cloudflare.Webhook.{parse_pairs, parse_tunnel_map}
use external_dns_cloudflare.Webhook.Csv.{split-join, join_head}
use external_dns_cloudflare.Webhook.TunnelMap.{
  IsWritable, pair_text, pair_text-IsTrimmed, pair_of-pair_text,
}

parse_pairs-pair_text :
    (m out : Assoc Text)
    → All IsWritable m
    → NodupKeys (out ++ m)
    → parse_pairs (map pair_text m) out ≡ ok (out ++ m)
unfolding parse_pairs
parse_pairs-pair_text [] out _ _ = ap ok (sym (append-nil out))
parse_pairs-pair_text ((d, t) ∷ m) out (w, ws) u =
    let part = pair_text-IsTrimmed d t w.0 in
    let fresh = insert_absent d t out (NodupKeys-absent out d t m u) in
    let moved : (out ++ (d, t) ∷ []) ++ m ≡ out ++ (d, t) ∷ m = append_assoc out ((d, t) ∷ []) m in
    rw (part.0, ne_nil-test (pair_text (d, t)) part.1, pair_of-pair_text d t w, fresh)
      (parse_pairs-pair_text m (out ++ (d, t) ∷ []) ws (rw moved u) ∙ ap ok moved)

pair_text-Lacks : (d t : Text) → IsWritable (d, t) → Lacks b',' (pair_text (d, t))
pair_text-Lacks d t (_, _, free, free') = All-append _ d (b'=' ∷ t) free (refl, free')

texts-Lacks : (m : Assoc Text) → All IsWritable m → All (Lacks b',') (map pair_text m)
texts-Lacks [] _ = tt
texts-Lacks ((d, t) ∷ m) (w, ws) = (pair_text-Lacks d t w, texts-Lacks m ws)

text-ne-nil :
    (d t : Text) (ps : List Text)
    → IsWritable (d, t)
    → trim_space (join (pair_text (d, t) ∷ ps) (codes ",")) == [] ≡ false
text-ne-nil [] t ps (((_, n), _), _, _, _) = absurd (n refl)
text-ne-nil (c ∷ d) t ps (((trimmed, _), _), _, _, _) =
    let head = join_head c (d ++ b'=' ∷ t) ps (codes ",") in
    rw head.1 (trim_space-ne-nil c head.0 (IsTrimmed-StartsSolid c d trimmed))

-- `parseTunnelMap` reads back a map whose entries are written with an equality sign and joined by
-- commas, in order, if no key stands twice, domains and tunnels are trimmed and not empty, no domain
-- has an equality sign, and neither has a comma.
pub parse_tunnel_map-join :
    (m : Assoc Text)
    → All IsWritable m
    → NodupKeys m
    → parse_tunnel_map (join (map pair_text m) (codes ",")) ≡ ok m
unfolding parse_tunnel_map
parse_tunnel_map-join [] _ _ = unfold join trim_space ◌==◌ in refl
parse_tunnel_map-join ((d, t) ∷ m) (w, ws) u =
    rw
      (
        text-ne-nil d t (map pair_text m) w,
        split-join b',' (pair_text (d, t)) (map pair_text m)
            (pair_text-Lacks d t w, texts-Lacks m ws),
      )
      (parse_pairs-pair_text ((d, t) ∷ m) [] (w, ws) u)
