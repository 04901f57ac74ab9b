-- ===== src/Webhook.antt =====
-- cmd/webhook/main.go: how the environment is read. The environment is a function from the name of
-- a variable to its value, which is empty if the variable is not set.
use external_dns_cloudflare.Prelude.{
  insert, ◌||◌, suc, zero, inr, inl, false, true, err, some, split, none, ok, cut, trim_space,
  to_lower, [], ◌==◌, not, Result, Assoc, ◌∷◌, Bool, Option, if◌then◌else◌, codes, contains, List,
  Text,
}
pub mod Csv
pub mod TunnelMap
pub mod Backend
pub mod Flags
pub mod Prune
pub mod Fragment
pub mod Start
pub mod Serve

abbrev pub Environment : Type 0
Environment = Text → Text

unfoldable pub default_owner_id : Text
default_owner_id = codes "default"

-- `envOr`
unfoldable pub env_or : Environment → Text → Text → Text
env_or getenv key default = if not (getenv key == []) then getenv key else default

-- `mustEnv`; none is an exit with status 1.
unfoldable pub must_env : Environment → Text → Option Text
must_env getenv key = if getenv key == [] then none else some (getenv key)

unfoldable pub true_words : List Text
true_words = codes "1" ∷ codes "t" ∷ codes "true" ∷ codes "yes" ∷ codes "on" ∷ []

-- `envBool`
unfoldable pub env_bool : Environment → Text → Bool → Bool
unfolding true_words contains
env_bool getenv key default =
    let word = to_lower (trim_space (getenv key)) in
    if word == [] then default else contains word true_words

-- The loop of `splitCSV`
unfoldable pub trimmed_parts : List Text → List Text
trimmed_parts [] = []
trimmed_parts (p ∷ ps) =
    let rest = trimmed_parts ps in let t = trim_space p in if not (t == []) then t ∷ rest else rest

-- `splitCSV`
unfoldable pub split_csv : Text → List Text
unfolding trimmed_parts
split_csv s = if trim_space s == [] then [] else trimmed_parts (split b',' s)

-- `parseError`
pub record ParseError : Type 0 where
  pub pair : Text

-- Both sides of a pair, trimmed, if neither is empty
trimmed_sides : Option (Text × Text) → Option (Text × Text)
trimmed_sides none = none
trimmed_sides (some (before, after)) =
    let domain = trim_space before in
    let tid = trim_space after in if domain == [] || tid == [] then none else some (domain, tid)

unfoldable pub pair_of : Text → Option (Text × Text)
unfolding trimmed_sides
pair_of pair = trimmed_sides (cut b'=' pair)

-- The loop of `parseTunnelMap`
unfoldable pub parse_pairs : List Text → Assoc Text → Result ParseError (Assoc Text)
unfolding pair_of
parse_pairs [] out = ok out
parse_pairs (raw ∷ pairs) out =
    let pair = trim_space raw in
    let skip = parse_pairs pairs out in
    let stored : Result ParseError (Assoc Text) = elim (pair_of pair) [
      | none ↦ err (record { pair = pair })
      | some (domain, tid) ↦ parse_pairs pairs (insert domain tid out)
    ] in
    if pair == [] then skip else stored

-- `parseTunnelMap`
unfoldable pub parse_tunnel_map : Text → Result ParseError (Assoc Text)
unfolding parse_pairs
parse_tunnel_map s = if trim_space s == [] then ok [] else parse_pairs (split b',' s) []
