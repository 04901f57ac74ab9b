-- ===== src/Tests/CoreDns.antt =====
-- The theorems on internal/coredns/fragment.go, for a cluster with one key.
use external_dns_cloudflare.Prelude.{
  insert, fields, split, eq_refl, refl, ◌↔◌, ok, ◌==◌, [], true, NodupKeys, All, arith, ap, ◌∷◌,
  lookup, to_lower, is_space, Assoc, codes, ◌≡◌, Text,
}
use external_dns_cloudflare.Prelude.Strings.Words.{IsWord}
use external_dns_cloudflare.CoreDns.{
  desired_rewrites, Fragment, ConfigMapApi, found, parse_rewrites, render, same_rewrites, load,
  apply,
}
use external_dns_cloudflare.CoreDns.RoundTrip.{IsRewrite, parse_rewrites-render}
use external_dns_cloudflare.CoreDns.Same.{same_rewrites_iff}
use external_dns_cloudflare.CoreDns.Delta.{ReadsBack, merged, load-apply, apply-idempotent}

-- A cluster with one ConfigMap, of one key: the key and its value
abbrev one_key : ConfigMapApi
one_key = record {
  Cluster = Text × Text;
  get_map = λ c name. found (c ∷ []);
  apply_key = λ c name manager key value. (ok tt, (key, value));
}

one_key-ReadsBack : ReadsBack one_key
one_key-ReadsBack = record {
  reads = λ c c' name manager key value h.
      let e : (key, value) ≡ c' = ap (λ q. q.1) h in
      (c' ∷ [], refl, rw (← e) (unfold lookup in rw eq_refl refl));
}

abbrev fragment : Fragment
fragment = record {
  name = codes "coredns-custom";
  key = codes "k";
  field_manager = codes "me";
  cluster_domain = codes "cluster.local";
}

abbrev a_host : Assoc Text
a_host = (codes "a.b", codes "s.n.svc") ∷ []

a-IsWord : IsWord (codes "a.b")
unfolding is_space
a-IsWord = (ground arith, cc)

a_target : IsWord (codes "s.n.svc")
unfolding is_space
a_target = (ground arith, cc)

a_host-IsRewrite : All IsRewrite a_host
unfolding to_lower
a_host-IsRewrite = ((refl, a-IsWord, a_target), tt)

parse_rewrites-render_example :
    lookup (codes "a.b") (parse_rewrites (render a_host)) ≡ lookup (codes "a.b") a_host
parse_rewrites-render_example = parse_rewrites-render a_host (codes "a.b") a_host-IsRewrite

a_host-NodupKeys : NodupKeys a_host
unfolding lookup
a_host-NodupKeys = (refl, tt)

same_rewrites_iff_example :
    (same_rewrites a_host a_host ≡ true) ↔ ((j : Text) → lookup j a_host ≡ lookup j a_host)
same_rewrites_iff_example =
    same_rewrites_iff a_host a_host a_host-NodupKeys a_host-NodupKeys (cc, tt)

abbrev empty_key : Text × Text
empty_key = (codes "k", [])

before : load fragment one_key empty_key ≡ ok []
unfolding load lookup ◌==◌ parse_rewrites split fields
before = refl

abbrev written : Text × Text
written = (codes "k", render a_host)

done : apply fragment one_key empty_key a_host [] ≡ (ok a_host, written)
unfolding apply load same_rewrites parse_rewrites split lookup ◌==◌ fields desired_rewrites insert
    to_lower
done = refl

load-apply_example :
    (now : Assoc Text) × (load fragment one_key written ≡ ok now)
    × ((j : Text) → lookup j now ≡ merged a_host [] j (lookup j []))
    × ((j : Text) → lookup j a_host ≡ merged a_host [] j (lookup j []))
load-apply_example =
    load-apply fragment one_key empty_key written [] a_host a_host [] one_key-ReadsBack
      ((a-IsWord, a_target), tt) before done

apply-idempotent_example :
    (again : Assoc Text) × (apply fragment one_key written a_host [] ≡ (ok again, written))
apply-idempotent_example =
    apply-idempotent fragment one_key empty_key written [] a_host a_host [] one_key-ReadsBack
      ((a-IsWord, a_target), tt) before done
