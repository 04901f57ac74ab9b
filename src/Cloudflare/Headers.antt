-- ===== src/Cloudflare/Headers.antt =====
-- The headers that `do` of internal/cloudflare/client.go sets.
use external_dns_cloudflare.Prelude.{
  lookup-nil, Bool-cases, not, refl, lookup-insert, ◌++◌, ◌∙◌, ◌==◌, insert, inr, inl, false, some,
  none, ◌∷◌, [], if◌then◌else◌, to_lower, ◌≡◌, Assoc, All, lookup, List, codes, Text,
}
use external_dns_cloudflare.Cloudflare.{Client, set_header, set_headers, headers_of}

-- No option of the client sets a header of that name, in whatever case it is written.
abbrev pub IsUnset : Text → List (Text × Text) → Type 0
IsUnset name = All (λ (h : Text × Text). to_lower h.0 == name ≡ false)

lookup-set_headers :
    (name : Text) (more : List (Text × Text)) (headers : Assoc Text)
    → IsUnset name more
    → lookup name (set_headers more headers) ≡ lookup name headers
unfolding set_headers set_header
lookup-set_headers name [] headers _ = refl
lookup-set_headers name ((n, v) ∷ more) headers (h, hs) =
    lookup-set_headers name more (insert (to_lower n) v headers) hs ∙ rw (lookup-insert, h) refl

abbrev authorization : Text
authorization = codes "authorization"

module _ (v : Text) (headers : Assoc Text) where
  lookup-user_agent :
      lookup authorization (set_header (codes "User-Agent") v headers)
      ≡ lookup authorization headers
  unfolding set_header to_lower ◌==◌
  lookup-user_agent = lookup-insert (codes "user-agent") authorization v headers

  lookup-content_type :
      lookup authorization (set_header (codes "Content-Type") v headers)
      ≡ lookup authorization headers
  unfolding set_header to_lower ◌==◌
  lookup-content_type = lookup-insert (codes "content-type") authorization v headers

  lookup-authorization :
      lookup authorization (set_header (codes "Authorization") v headers) ≡ some v
  unfolding set_header to_lower ◌==◌
  lookup-authorization = lookup-insert authorization authorization v headers

token_header :
    (c : Client)
    → lookup authorization (
        if not (c.token == [])
        then set_header (codes "Authorization") (codes "Bearer " ++ c.token) []
        else [])
      ≡ (if c.token == [] then none else some (codes "Bearer " ++ c.token))
token_header c = elim (Bool-cases (c.token == [])) [
  | inl e ↦ rw e (lookup-nil authorization)
  | inr e ↦ rw e (lookup-authorization (codes "Bearer " ++ c.token) [])
]

-- A request bears the token in its header for authorization if the client has one, and has no such
-- header if the client has none, provided that no option of the client sets that header.
pub lookup-headers_of :
    (c : Client)
    → IsUnset authorization c.headers
    → lookup authorization (headers_of c)
      ≡ (if c.token == [] then none else some (codes "Bearer " ++ c.token))
unfolding headers_of
lookup-headers_of c unset =
    lookup-content_type (codes "application/json") _
    ∙ lookup-set_headers authorization c.headers _ unset
    ∙ lookup-user_agent _ _
    ∙ token_header c
