-- ===== src/CoreDns/RoundTrip.antt =====
-- `parseRewrites` reads what `render` writes, in internal/coredns/fragment.go.
use external_dns_cloudflare.Prelude.{
  known-All, contains_byte, none, contains-keys, is_some, Option-cases, All-mono, eq_refl, eq_iff,
  lookup-insert, ◌||◌, true, inr, keys, inl, Bool, append_assoc, if◌then◌else◌, contains,
  Bool-cases, insert, sym, ◌==◌, ◌∙◌, refl, ap, [], ◌∷◌, split, some, ◌++◌, All, arith, ◌≡◌, List,
  lookup, All-append, fields, codes, to_lower, is_space, Assoc, Text,
}
use external_dns_cloudflare.Prelude.Strings.Words.{
  contains_byte-Lacks, Lacks, IsWord, split-append, fields-append_space, fields_word, IsWord-Lacks,
}
use mathlib.Core.Path.{subst, subst₂}
use external_dns_cloudflare.Prelude.Sort.{sort_strings, contains-sort_strings, All-sort}
use external_dns_cloudflare.CoreDns.{
  header_line, rewrite_of, parse_lines, parse_rewrites, value_or_empty, lines_of, render,
}

-- A host in lower case and its target, each of them a word
abbrev pub IsRewrite : Text × Text → Type 0
IsRewrite (h, t) = (to_lower h ≡ h) × (IsWord h) × (IsWord t)

rewrite-IsWord : IsWord (codes "rewrite")
unfolding is_space
rewrite-IsWord = (ground arith, cc)

name-IsWord : IsWord (codes "name")
unfolding is_space
name-IsWord = (ground arith, cc)

exact-IsWord : IsWord (codes "exact")
unfolding is_space
exact-IsWord = (ground arith, cc)

-- A line without its end
line : Text → Text → Text
line h t = codes "rewrite name exact " ++ (h ++ (b' ' ∷ t))

fields-line :
    (h t : Text)
    → IsWord h
    → IsWord t
    → fields (line h t) ≡ codes "rewrite" ∷ codes "name" ∷ codes "exact" ∷ h ∷ t ∷ []
unfolding line
fields-line h t wh wt =
    fields-append_space (codes "rewrite") _ rewrite-IsWord
    ∙ ap (λ l. codes "rewrite" ∷ l)
        (fields-append_space (codes "name") _ name-IsWord
          ∙ ap (λ l. codes "name" ∷ l)
              (fields-append_space (codes "exact") _ exact-IsWord
                ∙ ap (λ l. codes "exact" ∷ l)
                    (fields-append_space h t wh ∙ ap (λ l. h ∷ l) (fields_word t wt))))

rewrite_of-line : (h t : Text) → IsRewrite (h, t) → rewrite_of (fields (line h t)) ≡ some (h, t)
rewrite_of-line h t (low, wh, wt) =
    ap rewrite_of (fields-line h t wh wt) ∙ (unfold rewrite_of ◌==◌ in rw low)

line-Lacks : (h t : Text) → IsWord h → IsWord t → Lacks b'\n' (line h t)
unfolding line
line-Lacks h t wh wt =
    All-append _ (codes "rewrite name exact ") (h ++ (b' ' ∷ t)) (ground arith)
      (All-append _ h (b' ' ∷ t) (IsWord-Lacks h wh.0) (refl, IsWord-Lacks t wt.0))

-- The rest of a line and what follows it, in the order of `lines_of`
lines_of-line :
    (h t rest : Text)
    → codes "rewrite name exact " ++ (h ++ (b' ' ∷ (t ++ (b'\n' ∷ rest))))
      ≡ line h t ++ b'\n' ∷ rest
unfolding line
lines_of-line h t rest =
    ap (λ l. codes "rewrite name exact " ++ l) (sym (append_assoc h (b' ' ∷ t) (b'\n' ∷ rest)))

parse_lines-line :
    (h t : Text) (lines : List Text) (out : Assoc Text)
    → IsRewrite (h, t)
    → parse_lines (line h t ∷ lines) out ≡ parse_lines lines (insert h t out)
unfolding parse_lines
parse_lines-line h t lines out ok = rw (parse_lines, rewrite_of-line h t ok)

module _ (m : Assoc Text) (j : Text) where
  abbrev value : Text → Text
  value h = value_or_empty (lookup h m)

  lines_of-cons :
      (h : Text) (hosts : List Text)
      → lines_of (h ∷ hosts) m ≡ line h (value h) ++ b'\n' ∷ lines_of hosts m
  unfolding lines_of
  lines_of-cons h hosts = lines_of-line h (value h) (lines_of hosts m)

  lookup-parse_lines :
      (hosts : List Text) (out : Assoc Text)
      → All (λ h. IsRewrite (h, value h)) hosts
      → lookup j (parse_lines (split b'\n' (lines_of hosts m)) out)
        ≡ (if contains j hosts then some (value j) else lookup j out)
  lookup-parse_lines [] out _ = unfold lines_of split parse_lines rewrite_of fields contains in refl
  lookup-parse_lines (h ∷ hosts) out (rewrite_h, rest) =
      ap (λ s. lookup j (parse_lines (split b'\n' s) out)) (lines_of-cons h hosts)
      ∙ ap (λ l. lookup j (parse_lines l out))
          (split-append b'\n' (line h (value h)) (lines_of hosts m)
            (line-Lacks h (value h) rewrite_h.1 rewrite_h.2))
      ∙ ap (lookup j) (parse_lines-line h (value h) (split b'\n' (lines_of hosts m)) out rewrite_h)
      ∙ lookup-parse_lines hosts (insert h (value h) out) rest
      ∙ (unfold contains in at_head h (contains j hosts) out)
    where
      at_head :
          (h : Text) (b : Bool) (out : Assoc Text)
          → (if b then some (value j) else lookup j (insert h (value h) out))
            ≡ (if h == j || b then some (value j) else lookup j out)
      at_head h b out = rw lookup-insert (elim (Bool-cases (h == j)) [
        | inl e ↦ rw ((eq_iff h j).0 e, eq_refl j) (ground arith)
        | inr e ↦ rw e
      ])

-- A known key has a rewrite.
lookup-IsRewrite :
    (h t : Text) (m : Assoc Text) → All IsRewrite m → lookup h m ≡ some t → IsRewrite (h, t)
unfolding lookup
lookup-IsRewrite h t [] _ e = cc
lookup-IsRewrite h t ((k, v) ∷ m) (first, rest) e = elim (Bool-cases (k == h)) [
  | inl same ↦
      let key = (eq_iff k h).0 same in
      let target : v ≡ t = ground arith in subst₂ (λ a b. IsRewrite (a, b)) key target first
  | inr other ↦ lookup-IsRewrite h t m rest (ground arith)
]

known-IsRewrite :
    (m : Assoc Text) (h : Text)
    → All IsRewrite m
    → contains h (keys m) ≡ true
    → IsRewrite (h, value_or_empty (lookup h m))
known-IsRewrite m h good e = elim (Option-cases (lookup h m)) [
  | inl none_there ↦ cc (none_there, ap is_some none_there, contains-keys h m, e)
  | inr (t, there) ↦
      subst (λ o. IsRewrite (h, value_or_empty o)) (sym there)
        (unfold value_or_empty in lookup-IsRewrite h t m good there)
]

header-Lacks : Lacks b'\n' header_line
header-Lacks = contains_byte-Lacks b'\n' header_line (unfold contains_byte header_line in refl)

rewrite_of-header : rewrite_of (fields header_line) ≡ none
unfolding rewrite_of fields header_line ◌==◌
rewrite_of-header = refl

parse_rewrites-header :
    (rest : Text) → parse_rewrites (header_line ++ b'\n' ∷ rest) ≡ parse_lines (split b'\n' rest) []
unfolding parse_rewrites
parse_rewrites-header rest =
    ap (λ l. parse_lines l []) (split-append b'\n' header_line rest header-Lacks)
    ∙ rw (parse_lines, rewrite_of-header)

known_or_none :
    (m : Assoc Text) (j : Text)
    → (if contains j (sort_strings (keys m)) then some (value_or_empty (lookup j m)) else none)
      ≡ lookup j m
unfolding value_or_empty
known_or_none m j =
    rw (contains-sort_strings, contains-keys)
      (elim (Option-cases (lookup j m)) [ inl e ↦ rw e | inr (t, e) ↦ rw e ])

-- What `render` writes is read back by `parseRewrites`: every host has the target that it had, and
-- no other host has one, if each host is in lower case and hosts and targets are words.
pub parse_rewrites-render :
    (m : Assoc Text) (j : Text)
    → All IsRewrite m
    → lookup j (parse_rewrites (render m)) ≡ lookup j m
unfolding render
parse_rewrites-render m j good =
    ap (lookup j) (parse_rewrites-header (lines_of (sort_strings (keys m)) m))
    ∙ lookup-parse_lines m j (sort_strings (keys m)) [] (
        unfold sort_strings in
        All-sort _ _ (keys m) (
          All-mono (λ h. contains h (keys m) ≡ true)
            (λ h. IsRewrite (h, value_or_empty (lookup h m))) (keys m)
            (λ h. known-IsRewrite m h good) (known-All (keys m))))
    ∙ (unfold lookup in known_or_none m j)
