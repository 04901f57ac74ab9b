-- ===== src/Webhook/Prune/Created.antt =====
-- The subcommand of cmd/webhook/prune.go takes the routes that internal/provider/provider.go creates.
use external_dns_cloudflare.Prelude.{◌∙◌, sym, ap, eq_iff, none, ◌↔◌, Bool, some, Text, ◌≡◌, true}
use external_dns_cloudflare.Prelude.Strings.Trim.{IsSolid}
use external_dns_cloudflare.Cloudflare.{HostnameRoute}
use external_dns_cloudflare.Provider.Ownership.{comment, route_owner, route_tagged_by}
use external_dns_cloudflare.Provider.Ownership.RoundTrip.{route_owner-comment}
use external_dns_cloudflare.Webhook.Prune.{is_candidate}
use external_dns_cloudflare.Webhook.Prune.Exact.{is_candidate-IsPrunable}

tagged_iff :
    (owner wanted text : Text)
    → route_owner text ≡ some owner
    → (route_tagged_by text wanted ≡ true) ↔ (wanted ≡ owner)
unfolding route_tagged_by
tagged_iff owner wanted text known =
    rw (route_tagged_by, known)
      (let (there, back) = eq_iff owner wanted in (λ h. sym (there h), λ e. back (sym e)))

-- A live route within the domain filter that bears the tag which an instance writes for its owner is
-- taken for that owner and for no other, if the owner has no white space.
pub is_candidate-comment :
    (owner wanted : Text) (matches : Text → Bool) (r : HostnameRoute)
    → IsSolid owner
    → r.comment ≡ comment owner
    → r.deleted_at ≡ none
    → matches r.hostname ≡ true
    → (is_candidate wanted matches r ≡ true) ↔ (wanted ≡ owner)
is_candidate-comment owner wanted matches r solid tag live inside =
    let (there, back) = is_candidate-IsPrunable wanted matches r in
    let (fro, to) =
      tagged_iff owner wanted r.comment (ap route_owner tag ∙ route_owner-comment owner solid) in
    (λ h. fro (there h).1, λ e. back (live, to e, inside))
