-- ===== src/Protocol/Wire.antt =====
-- src/protocol/wire.rs: the request as it goes on the wire.
use brazen.Base.{
  ℕ, Bool, true, List, [], ◌∷◌, Option, none, some, Bytes, bytes_eq, bytes_eq_refl, ◌≡◌, refl,
  arith, if◌then◌else◌,
}
use brazen.Canonical.Model.{to_ascii_lowercase}

pub data Method : Type 0 where
  get post : Method

pub data Envelope : Type 0 where
  body http : Envelope

pub record ExecSpec : Type 0 where
  pub program : Bytes
  pub args : List Bytes
  pub envelope : Envelope

-- `Timeouts` of src/transport.rs
pub record Timeouts : Type 0 where
  pub connect : Option ℕ
  pub response : Option ℕ
  pub idle : Option ℕ

pub record WireRequest : Type 0 where
  pub method : Method
  pub url : Bytes
  pub headers : List (Bytes × Bytes)
  pub body : Bytes
  pub timeouts : Timeouts
  pub exec : Option ExecSpec

-- `WireRequest::new`
unfoldable pub new : Bytes → Bytes → WireRequest
new url bytes = record {
  method = post;
  url = url;
  headers = [];
  body = bytes;
  timeouts = record { connect = none; response = none; idle = none };
  exec = none;
}

unfoldable pub eq_ignore_ascii_case : Bytes → Bytes → Bool
unfolding to_ascii_lowercase
eq_ignore_ascii_case a b = bytes_eq (to_ascii_lowercase a) (to_ascii_lowercase b)

unfoldable pub put_header : Bytes → Bytes → List (Bytes × Bytes) → List (Bytes × Bytes)
unfolding eq_ignore_ascii_case
put_header name value [] = (name, value) ∷ []
put_header name value ((n, v) ∷ headers) =
    let later = put_header name value headers in
    if eq_ignore_ascii_case n name then (n, value) ∷ headers else (n, v) ∷ later

unfoldable pub set_header : WireRequest → Bytes → Bytes → WireRequest
unfolding put_header
set_header wire name value = record wire { headers = put_header name value wire.headers }

unfoldable pub find_header : Bytes → List (Bytes × Bytes) → Option Bytes
unfolding eq_ignore_ascii_case
find_header name [] = none
find_header name ((n, v) ∷ headers) =
    let later = find_header name headers in if eq_ignore_ascii_case n name then some v else later

unfoldable pub header : WireRequest → Bytes → Option Bytes
unfolding find_header
header wire name = find_header name wire.headers

eq_ignore_ascii_case_refl : (a : Bytes) → eq_ignore_ascii_case a a ≡ true
unfolding eq_ignore_ascii_case
eq_ignore_ascii_case_refl a = bytes_eq_refl (to_ascii_lowercase a)

find_header-put_header :
    (name value : Bytes) (headers : List (Bytes × Bytes))
    → find_header name (put_header name value headers) ≡ some value
unfolding find_header put_header
find_header-put_header name value [] = rw (eq_ignore_ascii_case_refl name) refl
find_header-put_header name value ((n, v) ∷ headers) =
    ground (arith, find_header-put_header name value headers)

pub header-set_header :
    (wire : WireRequest) (name value : Bytes)
    → header (set_header wire name value) name ≡ some value
unfolding header set_header
header-set_header wire name value = find_header-put_header name value wire.headers
