-- ===== src/CoreDns.antt =====
-- internal/coredns/fragment.go: the CoreDNS answers, kept in one key of a ConfigMap.
pub mod RoundTrip
pub mod Same
pub mod Valid
pub mod Delta
use external_dns_cloudflare.Prelude.{
  to_lower, ◌&&◌, ◌||◌, insert, erase, length, keys, lookup, fields, not, ◌==◌, suc, zero, inr, inl,
  false, some, none, ok, nat_eq, true, ◌++◌, [], split, ◌∷◌, cut, err, if◌then◌else◌, codes, Result,
  Option, List, Bool, Assoc, Text,
}
use external_dns_cloudflare.Errors.{Error, Context, wrap, unsupported_resource, malformed_resource}
use external_dns_cloudflare.Prelude.Sort.{sort_strings}

unfoldable pub default_key : Text
default_key = codes "zz-external-dns.override"

unfoldable pub default_field_manager : Text
default_field_manager = codes "external-dns"

unfoldable pub default_cluster_domain : Text
default_cluster_domain = codes "cluster.local"

-- `header`
unfoldable pub header_line : Text
header_line = codes "# Managed by external-dns (cfzt webhook provider). Do not edit by hand."

-- `Fragment`, without its client
pub record Fragment : Type 0 where
  pub name : Text
  pub key : Text
  pub field_manager : Text
  pub cluster_domain : Text

-- The answer of `configMapAPI.Get`: the data of the ConfigMap, or none for `IsNotFound`.
pub data Found : Type 0 where
  not_found : Found
  failed : Error → Found
  found : Assoc Text → Found

-- `configMapAPI`. `apply_key` is a server-side apply, with `Force`, of one key: it takes the name of
-- the ConfigMap, the field manager, the key and its value.
pub record ConfigMapApi : Type 1 where
  pub Cluster : Type 0
  pub get_map : Cluster → Text → Found
  pub apply_key : Cluster → Text → Text → Text → Text → Result Error (Unit {0}) × Cluster

or_default : Text → Text → Text
or_default t d = if t == [] then d else t

pub data FragmentError : Type 0 where
  api_required name_required : FragmentError

-- `New`; the first argument says whether the client is not nil.
unfoldable pub new : Bool → Fragment → Result FragmentError Fragment
unfolding or_default
new api f =
    if not api
    then err api_required
    else if f.name == []
    then err name_required
    else ok (record {
      name = f.name;
      key = or_default f.key default_key;
      field_manager = or_default f.field_manager default_field_manager;
      cluster_domain = or_default f.cluster_domain default_cluster_domain;
    })

target_of : Fragment → Text → Option (Text × Text) → Result Error Text
target_of f resource none = err (malformed_resource resource)
target_of f resource (some (namespace, name)) =
    if namespace == [] || name == []
    then err (malformed_resource resource)
    else ok (name ++ (codes "." ++ (namespace ++ (codes ".svc." ++ f.cluster_domain))))

-- `ServiceTarget`
unfoldable pub service_target : Fragment → Text → Result Error Text
unfolding target_of
service_target f resource = elim (cut b'/' resource) [
  | none ↦ err (unsupported_resource resource)
  | some (kind, rest) ↦
      if not (kind == codes "service")
      then err (unsupported_resource resource)
      else target_of f resource (cut b'/' rest)
]

-- The fields of a line, if it is a rewrite
rewrite_of : List Text → Option (Text × Text)
rewrite_of (a ∷ b ∷ c ∷ host ∷ target ∷ []) =
    if not (a == codes "rewrite") || (not (b == codes "name") || not (c == codes "exact"))
    then none
    else some (to_lower host, target)
rewrite_of _ = none

parse_lines : List Text → Assoc Text → Assoc Text
unfolding rewrite_of
parse_lines [] out = out
parse_lines (line ∷ lines) out = elim (rewrite_of (fields line)) [
  | none ↦ parse_lines lines out
  | some (host, target) ↦ parse_lines lines (insert host target out)
]

-- `parseRewrites`
unfoldable pub parse_rewrites : Text → Assoc Text
unfolding parse_lines
parse_rewrites s = parse_lines (split b'\n' s) []

value_or_empty : Option Text → Text
value_or_empty none = []
value_or_empty (some t) = t

lines_of : List Text → Assoc Text → Text
unfolding value_or_empty
lines_of [] rewrites = []
lines_of (h ∷ hosts) rewrites =
    codes "rewrite name exact "
    ++ (h ++ (b' ' ∷ (value_or_empty (lookup h rewrites) ++ (b'\n' ∷ lines_of hosts rewrites))))

-- `render`
unfoldable pub render : Assoc Text → Text
unfolding lines_of
render rewrites = header_line ++ (b'\n' ∷ lines_of (sort_strings (keys rewrites)) rewrites)

-- The loop of `sameRewrites`: a key that `b` lacks reads as the empty text.
covers : Assoc Text → Assoc Text → Bool
unfolding value_or_empty
covers [] b = true
covers ((k, v) ∷ a) b = value_or_empty (lookup k b) == v && covers a b

-- `sameRewrites`
unfoldable pub same_rewrites : Assoc Text → Assoc Text → Bool
unfolding covers
same_rewrites a b = nat_eq (length a) (length b) && covers a b

unfoldable pub remove_all : List Text → Assoc Text → Assoc Text
remove_all [] desired = desired
remove_all (h ∷ hosts) desired = remove_all hosts (erase (to_lower h) desired)

unfoldable pub add_all : Assoc Text → Assoc Text → Assoc Text
add_all [] desired = desired
add_all ((h, t) ∷ more) desired = add_all more (insert (to_lower h) t desired)

-- What the key is to hold: removals come before additions.
unfoldable pub desired_rewrites : Assoc Text → Assoc Text → List Text → Assoc Text
unfolding remove_all add_all
desired_rewrites current add remove = add_all add (remove_all remove current)

module _ (f : Fragment) (k8s : ConfigMapApi) where
  open k8s use {Cluster, get_map, apply_key}

  read : Found → Result Error (Assoc Text)
  read not_found = ok []
  read (failed e) = err (wrap (Context.get_configmap f.name) e)
  read (found contents) = ok (parse_rewrites (value_or_empty (lookup f.key contents)))

  -- `Load`
  unfoldable pub load : Cluster → Result Error (Assoc Text)
  unfolding read value_or_empty
  load c = read (get_map c f.name)

  write :
      Cluster → Assoc Text → Result Error (Unit {0}) × Cluster → Result Error (Assoc Text) × Cluster
  write c desired (err e, c') = (err (wrap (Context.apply_configmap f.name f.key) e), c')
  write c desired (ok _, c') = (ok desired, c')

  apply_delta : Cluster → Assoc Text → Assoc Text → Result Error (Assoc Text) × Cluster
  unfolding write
  apply_delta c current desired =
      if same_rewrites current desired
      then (ok desired, c)
      else write c desired (apply_key c f.name f.field_manager f.key (render desired))

  -- `Apply`
  unfoldable pub apply : Cluster → Assoc Text → List Text → Result Error (Assoc Text) × Cluster
  unfolding apply_delta
  apply c add remove = elim (load c) [
    | err e ↦ (err e, c)
    | ok current ↦ apply_delta c current (desired_rewrites current add remove)
  ]
