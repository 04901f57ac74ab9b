-- ===== src/Cloudflare.antt =====
-- internal/cloudflare/client.go: the client of the hostname-route API.
pub mod Paging
pub mod Pages
pub mod Headers
use external_dns_cloudflare.Prelude.{
  zero, suc, length, ◌*◌, ◌+◌, nat_eq, some, ◌||◌, ◌==◌, true, take, leb, none, join, decimal, not,
  to_lower, err, ok, map, if◌then◌else◌, insert, [], ◌∷◌, codes, Option, false, Assoc, Result, Bool,
  List, ◌++◌, ℕ, Text,
}
use external_dns_cloudflare.Prelude.Ints.{leb_int, mul_int, next_int, itoa}
use external_dns_cloudflare.Errors.{
  ApiError, api, foreign, wrap, Context, decode_response, decode_routes, decode_created_route,
  decode_patched_route, Error,
}

pub record HostnameRoute : Type 0 where
  pub id : Text
  pub hostname : Text
  pub tunnel_id : Text
  pub tunnel_name : Text
  pub tun_type : Text
  pub comment : Text
  pub created_at : Option ℕ
  pub deleted_at : Option ℕ

unfoldable pub err_code_hostname_already_routed : ℕ
err_code_hostname_already_routed = 1108

unfoldable pub default_base_url : Text
default_base_url = codes "https://api.cloudflare.com/client/v4"

unfoldable pub user_agent : Text
user_agent = codes "external-dns-cloudflare-zerotrust-provider"

-- `Client`, without its `*http.Client`
pub record Client : Type 0 where
  pub account_id : Text
  pub base_url : Text
  pub token : Text
  pub headers : List (Text × Text)

-- `Option`, and its application in `New`
pub data ClientOption : Type 0 where
  with_base_url : Text → ClientOption
  with_header : Text → Text → ClientOption

unfoldable pub apply_option : Client → ClientOption → Client
apply_option c (with_base_url u) = record c { base_url = u }
apply_option c (with_header name value) = record c { headers = c.headers ++ (name, value) ∷ [] }

unfoldable pub apply_options : Client → List ClientOption → Client
apply_options c [] = c
apply_options c (o ∷ os) = apply_options (apply_option c o) os

unfoldable pub new : Text → Text → List ClientOption → Client
unfolding apply_options apply_option
new account_id api_token opts =
    apply_options
      (record {
        account_id = account_id;
        base_url = default_base_url;
        token = api_token;
        headers = [];
      })
      opts

-- `code` is a Go `int`, in the form of Prelude/Ints.
pub record ApiErrorItem : Type 0 where
  pub code : ℕ
  pub message : Text

-- Each is a Go `int`, in the form of Prelude/Ints.
pub record ResultInfo : Type 0 where
  pub page : ℕ
  pub per_page : ℕ
  pub count : ℕ
  pub total_count : ℕ

-- The envelope; `result` is still in JSON.
pub record ApiResponse : Type 0 where
  pub success : Bool
  pub errors : List ApiErrorItem
  pub messages : List ApiErrorItem
  pub result : Text
  pub result_info : Option ResultInfo

pub data Body : Type 0 where
  no_body : Body
  -- hostname, tunnel id, comment; an empty comment is omitted
  create_body : Text → Text → Text → Body
  -- always sent, also if it is empty
  comment_body : Text → Body
  -- `RoutePatch`: hostname, tunnel id, comment; what is empty is omitted
  patch_body : Text → Text → Text → Body

pub record Request : Type 0 where
  pub method : Text
  pub url : Text
  pub query : Assoc Text
  pub request_headers : Assoc Text
  pub body : Body

-- The network, and the decoders of `encoding/json`.
pub record Http : Type 0 where
  pub send : Request → Result Error (ℕ × Text)
  pub decode_envelope : Text → Option ApiResponse
  pub decode_route_list : Text → Option (List HostnameRoute)
  pub decode_route : Text → Option HostnameRoute

-- `req.Header.Set`: one value for a name, whose case does not matter
unfoldable pub set_header : Text → Text → Assoc Text → Assoc Text
set_header name value headers = insert (to_lower name) value headers

unfoldable pub set_headers : List (Text × Text) → Assoc Text → Assoc Text
set_headers [] headers = headers
set_headers ((name, value) ∷ more) headers = set_headers more (set_header name value headers)

-- The headers that `do` sets
unfoldable pub headers_of : Client → Assoc Text
unfolding set_headers set_header
headers_of c =
    let auth =
      if not (c.token == [])
      then set_header (codes "Authorization") (codes "Bearer " ++ c.token) []
      else [] in
    set_header (codes "Content-Type") (codes "application/json")
      (set_headers c.headers (set_header (codes "User-Agent") user_agent auth))

-- `errCodes`
unfoldable pub err_codes : ApiResponse → List ℕ
err_codes r = map (λ (e : ApiErrorItem). e.code) r.errors

error_line : ApiErrorItem → Text
error_line e = codes "[" ++ (itoa e.code ++ (codes "] " ++ e.message))

error_lines : List ApiErrorItem → Text
unfolding error_line
error_lines [] = codes "unknown error"
error_lines (e ∷ es) = join (map error_line (e ∷ es)) (codes "; ")

-- `errString`
unfoldable pub err_string : ApiResponse → Text
unfolding error_lines
err_string r = error_lines r.errors

-- 8 << 20 bytes of a response are read.
unfoldable pub response_limit : ℕ
response_limit = 8388608

zero_response : ApiResponse
zero_response = record {
  success = false;
  errors = [];
  messages = [];
  result = [];
  result_info = none;
}

check_status : Text → Text → ℕ → ApiResponse → Result Error ApiResponse
unfolding err_codes err_string
check_status method path status out =
    if leb 300 status || not out.success
    then err (
        api (record {
          method = method;
          path = path;
          status_code = status;
          codes = err_codes out;
          message = err_string out;
        }))
    else ok out

decode_body : Http → ℕ → Text → Result Error ApiResponse
unfolding zero_response
decode_body http status [] = ok zero_response
decode_body http status (b ∷ raw) = elim (http.decode_envelope (b ∷ raw)) [
  | none ↦ err (wrap (decode_response status) (foreign []))
  | some out ↦ ok out
]

-- `do`; the responses that it returns beside an error are not used.
unfoldable pub call : Client → Http → Text → Text → Assoc Text → Body → Result Error ApiResponse
unfolding decode_body check_status headers_of
call c http method path query body =
    elim (http.send (record {
      method = method;
      url = c.base_url ++ path;
      query = query;
      request_headers = headers_of c;
      body = body;
    })) [
      | err e ↦ err e
      | ok (status, raw) ↦ elim (decode_body http status (take response_limit raw)) [
        | err e ↦ err e
        | ok out ↦ check_status method path status out
      ]
    ]

unfoldable pub routes_path : Client → Text
routes_path c = codes "/accounts/" ++ c.account_id ++ codes "/zerotrust/routes/hostname"

-- The query of one page
unfoldable pub page_query : Text → ℕ → Assoc Text
page_query tunnel_id page =
    let scope = if not (tunnel_id == []) then insert (codes "tunnel_id") tunnel_id [] else [] in
    insert (codes "per_page") (codes "100") (insert (codes "page") (itoa page) scope)

-- One round of the loop of `ListHostnameRoutes`: the batch, and what the server says of it
unfoldable pub fetch_page :
    Client → Http → Text → ℕ → Result Error (List HostnameRoute × Option ResultInfo)
unfolding page_query
fetch_page c http tunnel_id page =
    elim (call c http (codes "GET") (routes_path c) (page_query tunnel_id page) no_body) [
      | err e ↦ err e
      | ok out ↦ elim (http.decode_route_list out.result) [
        | none ↦ err (wrap decode_routes (foreign []))
        | some batch ↦ ok (batch, out.result_info)
      ]
    ]

-- The test for the last page
unfoldable pub is_last : ℕ → List HostnameRoute → Option ResultInfo → Bool
is_last page batch none = true
is_last page batch (some info) =
    nat_eq info.per_page 0
    || leb_int info.total_count (mul_int page info.per_page)
    || nat_eq (length batch) 0

-- The loop of `ListHostnameRoutes` on fuel: `none` if the fuel ran out. The page is an `int`.
unfoldable pub list_loop :
    Client → Http → Text → ℕ → ℕ → List HostnameRoute → Option (Result Error (List HostnameRoute))
list_loop c http tunnel_id zero page all = none
list_loop c http tunnel_id (suc fuel) page all = elim (fetch_page c http tunnel_id page) [
  | err e ↦ some (err e)
  | ok (batch, info) ↦
      let rest = list_loop c http tunnel_id fuel (next_int page) (all ++ batch) in
      if is_last page batch info then some (ok (all ++ batch)) else rest
]

unfoldable pub list_hostname_routes :
    Client → Http → ℕ → Text → Option (Result Error (List HostnameRoute))
unfolding list_loop
list_hostname_routes c http fuel tunnel_id = list_loop c http tunnel_id fuel 1 []

decode_one : Http → Context → Result Error ApiResponse → Result Error HostnameRoute
decode_one http what (err e) = err e
decode_one http what (ok out) = elim (http.decode_route out.result) [
  | none ↦ err (wrap what (foreign []))
  | some route ↦ ok route
]

unfoldable pub create_hostname_route :
    Client → Http → Text → Text → Text → Result Error HostnameRoute
unfolding decode_one
create_hostname_route c http hostname tunnel_id comment =
    decode_one http decode_created_route
      (call c http (codes "POST") (routes_path c) [] (create_body hostname tunnel_id comment))

unfoldable pub patch_hostname_route_comment :
    Client → Http → Text → Text → Result Error HostnameRoute
unfolding decode_one
patch_hostname_route_comment c http id comment =
    decode_one http decode_patched_route
      (call c http (codes "PATCH") (routes_path c ++ b'/' ∷ id) [] (comment_body comment))

pub record RoutePatch : Type 0 where
  pub hostname : Text
  pub tunnel_id : Text
  pub comment : Text

unfoldable pub patch_hostname_route : Client → Http → Text → RoutePatch → Result Error HostnameRoute
unfolding decode_one
patch_hostname_route c http id p = decode_one http decode_patched_route (
    call c http (codes "PATCH") (routes_path c ++ b'/' ∷ id) []
      (patch_body p.hostname p.tunnel_id p.comment))

unfoldable pub delete_hostname_route : Client → Http → Text → Result Error (Unit {0})
delete_hostname_route c http id =
    elim (call c http (codes "DELETE") (routes_path c ++ b'/' ∷ id) [] no_body) [
      | err e ↦ err e
      | ok out ↦ ok tt
    ]
