-- ===== src/Webhook/Fragment/Answers.antt =====
-- When `buildFragment` of cmd/webhook/main.go puts the CoreDNS half on.
use external_dns_cloudflare.Prelude.{
  inr, inl, Bool-cases, [], ◌==◌, none, trim_space, not, some, err, is_some, ok, Option, Text,
  Result, ok_injective, sym, ap, true, ◌≡◌,
}
use external_dns_cloudflare.Provider.State.{FragmentWriter}
use external_dns_cloudflare.Webhook.{Environment}
use external_dns_cloudflare.Webhook.Fragment.{
  enabled, with_clientset, with_names, Kubernetes, SetupError, build_fragment,
}

module _ (k : Kubernetes) (getenv : Environment) where
  enabled-is_some :
      (q : Result SetupError FragmentWriter) (writer : Option FragmentWriter)
      → enabled k q ≡ ok writer
      → is_some writer ≡ true
  unfolding enabled
  enabled-is_some (err e) writer h = cc
  enabled-is_some (ok w) writer h = ap is_some (sym (ok_injective (some w) writer h))

  with_clientset-is_some :
      (names : Text × Text) (q : Result SetupError k.Clientset) (writer : Option FragmentWriter)
      → with_clientset k getenv names q ≡ ok writer
      → is_some writer ≡ true
  unfolding with_clientset
  with_clientset-is_some names (err e) writer h = cc
  with_clientset-is_some names (ok set) writer h = enabled-is_some _ writer h

  with_names-is_some :
      (spec : Text) (names : Option (Text × Text)) (writer : Option FragmentWriter)
      → with_names k getenv spec names ≡ ok writer
      → is_some writer ≡ true
  unfolding with_names
  with_names-is_some spec none writer h = cc
  with_names-is_some spec (some names) writer h = with_clientset-is_some names _ writer h

-- The CoreDNS half is on just if the text is not blank.
pub build_fragment-answers :
    (k : Kubernetes) (getenv : Environment) (spec : Text) (writer : Option FragmentWriter)
    → build_fragment k getenv spec ≡ ok writer
    → is_some writer ≡ not (trim_space spec == [])
unfolding build_fragment
build_fragment-answers k getenv spec writer h = elim (Bool-cases (trim_space spec == [])) [
  | inl e ↦ rw e (ap is_some (sym (ok_injective none writer (rw e at h))))
  | inr e ↦ rw e (with_names-is_some k getenv spec _ writer (rw e at h))
]
