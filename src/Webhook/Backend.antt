-- ===== src/Webhook/Backend.antt =====
-- cmd/webhook/backend.go: where the calls for hostname routes go.
pub mod Credentials
use external_dns_cloudflare.Prelude.{
  ◌==◌, not, suc, zero, inr, inl, false, true, err, ok, some, if◌then◌else◌, ◌∷◌, trim_space,
  trim_right, none, to_lower, Result, [], Option, codes, Assoc, contains, List, Text, ◌||◌,
}
use external_dns_cloudflare.Cloudflare.{Client, with_base_url, with_header}
use external_dns_cloudflare.Webhook.{Environment}
use external_dns_cloudflare.Cloudflare

unfoldable pub backend_cloudflare : Text
backend_cloudflare = codes "cloudflare"

unfoldable pub backend_broker : Text
backend_broker = codes "broker"

-- `url.URL`, as far as it is read
pub record Url : Type 0 where
  pub scheme : Text
  pub host : Text
  -- `Hostname()`
  pub hostname : Text

pub data BackendError : Type 0 where
  account_required token_required token_set : BackendError
  broker_required : Text → BackendError
  url_invalid : Text → BackendError
  url_refused : Url → BackendError
  unknown_backend : Text → BackendError

abbrev pub loopback_names : List Text
loopback_names = codes "localhost" ∷ codes "127.0.0.1" ∷ codes "::1" ∷ []

-- The `switch` on the scheme
unfoldable pub check_url : Url → Option BackendError
unfolding contains
check_url u =
    if u.scheme == codes "https"
    then none
    else if u.scheme == codes "http"
    then (if contains u.hostname loopback_names then none else some (url_refused u))
    else some (url_refused u)

-- `checkBrokerURL`; `parse_url` is `url.Parse` of net/url, none for its error.
unfoldable pub check_broker_url : (Text → Option Url) → Text → Option BackendError
unfolding check_url
check_broker_url parse_url raw = elim (parse_url raw) [
  | none ↦ some (url_invalid raw)
  | some u ↦ if u.host == [] then some (url_invalid raw) else check_url u
]

-- The loop that looks for a value that is missing
unfoldable pub first_missing : Assoc Text → Option Text
first_missing [] = none
first_missing ((name, value) ∷ more) = if value == [] then some name else first_missing more

-- The client of the broker
unfoldable pub broker_client : Text → Text → Text → Text → Client
broker_client account_id broker_url client_id client_secret = Cloudflare.new account_id [] (
    with_base_url (trim_right b'/' broker_url)
    ∷ with_header (codes "CF-Access-Client-Id") client_id
    ∷ with_header (codes "CF-Access-Client-Secret") client_secret
    ∷ [])

-- `case backendCloudflare`
unfoldable pub direct_backend : Environment → Text → Result BackendError (Client × Text)
direct_backend getenv account_id =
    let token = getenv (codes "CF_API_TOKEN") in
    if token == []
    then err token_required
    else ok (Cloudflare.new account_id token [], backend_cloudflare)

-- The client, unless a value is missing or the address is refused
unfoldable pub broker_answer :
    Option Text → Option BackendError → Client → Result BackendError (Client × Text)
broker_answer (some name) refused client = err (broker_required name)
broker_answer none (some e) client = err e
broker_answer none none client = ok (client, backend_broker)

-- `case backendBroker`. The three values are looked at in an order that the source leaves open, so
-- it may name another of those that are missing.
unfoldable pub broker_backend :
    (Text → Option Url) → Environment → Text → Result BackendError (Client × Text)
unfolding check_broker_url first_missing broker_client broker_answer
broker_backend parse_url getenv account_id =
    let broker_url = trim_space (getenv (codes "BROKER_URL")) in
    let client_id = getenv (codes "BROKER_CLIENT_ID") in
    let client_secret = getenv (codes "BROKER_CLIENT_SECRET") in
    let needed : Assoc Text =
      (codes "BROKER_URL", broker_url)
      ∷ (codes "BROKER_CLIENT_ID", client_id)
      ∷ (codes "BROKER_CLIENT_SECRET", client_secret)
      ∷ [] in
    if not (getenv (codes "CF_API_TOKEN") == [])
    then err token_set
    else broker_answer (first_missing needed) (check_broker_url parse_url broker_url)
        (broker_client account_id broker_url client_id client_secret)

-- The backend that the environment names
unfoldable pub backend_of : Environment → Text
backend_of getenv =
    let named = to_lower (trim_space (getenv (codes "ROUTE_BACKEND"))) in
    if named == [] then backend_cloudflare else named

-- `newRouteClient`
unfoldable pub new_route_client :
    (Text → Option Url) → Environment → Result BackendError (Client × Text)
unfolding backend_of direct_backend broker_backend
new_route_client parse_url getenv =
    let backend = backend_of getenv in
    let account_id = trim_space (getenv (codes "CF_ACCOUNT_ID")) in
    if account_id == []
    then err account_required
    else if backend == backend_cloudflare
    then direct_backend getenv account_id
    else if backend == backend_broker
    then broker_backend parse_url getenv account_id
    else err (unknown_backend backend)
