-- ===== src/Provider/Ownership/RoundTrip.antt =====
-- `comment` and `routeOwner` of internal/provider/provider.go fit together.
use external_dns_cloudflare.Prelude.{
  append_assoc, sym, ◌∙◌, cut_prefix, [], ap, refl, All-append, ◌++◌, some, ◌∷◌, false, ℕ, codes,
  arith, ◌≡◌, is_space, ◌==◌, trim_space, Text,
}
use external_dns_cloudflare.Provider.Ownership.{managed_by_prefix, comment, route_owner}
use external_dns_cloudflare.Prelude.Strings.Trim.{IsSolid, trim_space_solid}
use external_dns_cloudflare.Prelude.Strings.Affix.{cut_prefix-append}

prefix-IsSolid : IsSolid managed_by_prefix
unfolding managed_by_prefix is_space
prefix-IsSolid = ground arith

slash-IsSolid : IsSolid (codes "/")
unfolding is_space
slash-IsSolid = ground arith

longer_apart : (p : Text) (c : ℕ) (s : Text) → (p ++ c ∷ s) == p ≡ false
unfolding ◌==◌
longer_apart [] c s = refl
longer_apart (d ∷ p) c s = ground (arith, longer_apart p c s)

comment_tag : (c : ℕ) (o : Text) → comment (c ∷ o) ≡ managed_by_prefix ++ (codes "/" ++ c ∷ o)
unfolding comment ◌==◌
comment_tag c o = refl

tag-IsSolid : (o : Text) → IsSolid o → IsSolid (managed_by_prefix ++ (codes "/" ++ o))
tag-IsSolid o solid =
    All-append _ managed_by_prefix (codes "/" ++ o) prefix-IsSolid
      (All-append _ (codes "/") o slash-IsSolid solid)

route_owner-tag :
    (o : Text) → IsSolid o → route_owner (managed_by_prefix ++ (codes "/" ++ o)) ≡ some o
unfolding route_owner
route_owner-tag o solid =
    rw (trim_space_solid _ (tag-IsSolid o solid), longer_apart managed_by_prefix b'/' o)
      (ap (λ t. cut_prefix t (managed_by_prefix ++ codes "/"))
          (sym (append_assoc managed_by_prefix (codes "/") o))
        ∙ cut_prefix-append (managed_by_prefix ++ codes "/") o)

-- The tag that an owner writes is read back as that owner, if the id of the owner, which may be
-- empty, has no white space.
pub route_owner-comment :
    (owner_id : Text) → IsSolid owner_id → route_owner (comment owner_id) ≡ some owner_id
route_owner-comment [] _ = unfold route_owner comment trim_space managed_by_prefix ◌==◌ in refl
route_owner-comment (c ∷ o) solid = ap route_owner (comment_tag c o) ∙ route_owner-tag (c ∷ o) solid
