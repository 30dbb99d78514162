-- ===== src/Url.antt =====
-- Percent encoding (src/UrlEncode.cpp), and which redirects may carry credentials
-- (src/RedirectPolicy.cpp, with the text functions of src/StringUtil.h and src/StringUtil.cpp that it
-- uses).
pub mod Encode
pub mod Origin
pub mod Redirect
mod Examples
use pvr_dispatcharr_unoffici.Prelude.{
  ℕ, zero, suc, ◌+◌, ◌-◌, ◌*◌, ◌/◌, ◌^◌, bit_and, Bool, true, false, not, ◌&&◌, ◌||◌, Option, none,
  some, List, [], ◌∷◌, ◌++◌, map, Bytes, codes, bytes_eq, is_empty, drop, length, get_or,
  starts_with, before_char, leb, ltb, ◌==◌, if◌then◌else◌,
}

abbrev pub is_between : ℕ → ℕ → ℕ → Bool
is_between low high c = leb low c && leb c high

abbrev pub is_unreserved : ℕ → Bool
is_unreserved c =
    is_between b'A' b'Z' c
    || (is_between b'a' b'z' c
        || (is_between b'0' b'9' c || (c == b'-' || (c == b'.' || (c == b'_' || c == b'~')))))

abbrev pub hex_digits : Bytes
hex_digits = codes "0123456789ABCDEF"

-- One round of the loop; a byte is below 256.
unfoldable pub encode_byte : ℕ → Bytes
encode_byte c =
    if is_unreserved c
    then c ∷ []
    else b'%' ∷ get_or hex_digits (c / 2 ^ 4) 0 ∷ get_or hex_digits (bit_and c 0x0f) 0 ∷ []

unfoldable pub url_encode : Bytes → Bytes
url_encode [] = []
url_encode (c ∷ value) = encode_byte c ++ url_encode value

abbrev pub ascii_to_lower : ℕ → ℕ
ascii_to_lower c = if is_between b'A' b'Z' c then c + (b'a' - b'A') else c

abbrev pub to_lower : Bytes → Bytes
to_lower = map ascii_to_lower

abbrev pub contains : ℕ → Bytes → Bool
contains c [] = false
contains c (d ∷ s) = (d == c) || contains c s

abbrev pub begins_with : ℕ → Bytes → Bool
begins_with c [] = false
begins_with c (d ∷ s) = d == c

unfoldable pub format_host_for_url : Bytes → Bytes
format_host_for_url host =
    if is_empty host || (begins_with b'[' host || not (contains b':' host))
    then host
    else b'[' ∷ host ++ b']' ∷ []

-- `UrlOrigin`.
pub record UrlOrigin : Type 0 where
  pub valid : Bool
  pub scheme : Bytes
  pub host : Bytes
  pub port : ℕ
  pub has_user_info : Bool

-- An origin that is not valid, and whether it was seen to have user information.
abbrev pub no_origin : Bool → UrlOrigin
no_origin has_user_info = record {
  valid = false;
  scheme = [];
  host = [];
  port = 0;
  has_user_info = has_user_info;
}

-- What stands before the first `mark` and behind it, if there is one.
abbrev pub put_first : ℕ → Option (Bytes × Bytes) → Option (Bytes × Bytes)
put_first c none = none
put_first c (some (before, behind)) = some (c ∷ before, behind)

unfoldable pub split_on : Bytes → Bytes → Option (Bytes × Bytes)
split_on mark [] = if starts_with mark [] then some ([], []) else none
split_on mark (c ∷ s) =
    let later = split_on mark s in
    if starts_with mark (c ∷ s) then some ([], drop (length mark) (c ∷ s)) else put_first c later

-- `find_first_of("/?#")`.
abbrev pub ends_authority : ℕ → Bool
ends_authority c = (c == b'/') || ((c == b'?') || (c == b'#'))

abbrev pub authority_of : Bytes → Bytes
authority_of [] = []
authority_of (c ∷ s) = if ends_authority c then [] else c ∷ authority_of s

-- What stands behind the last `c`, if there is one.
abbrev pub behind_last : ℕ → Bytes → Option Bytes
behind_last c [] = none
behind_last c (d ∷ s) = elim (behind_last c s) [
  | some rest ↦ some rest
  | none ↦ if d == c then some s else none
]

-- What stands behind the first `c`, or nothing.
abbrev pub behind_first : ℕ → Bytes → Bytes
behind_first c [] = []
behind_first c (d ∷ s) = if d == c then s else behind_first c s

-- The host and the port's text of an authority in brackets, from the text behind the first '[' on.
abbrev pub bracketed : Option (Bytes × Bytes) → Option (Bytes × Bytes)
bracketed none = none
bracketed (some (host, [])) = some (host, [])
bracketed (some (host, c ∷ rest)) = if c == b':' then some (host, rest) else none

unfoldable pub host_and_port : Bytes → Option (Bytes × Bytes)
host_and_port [] = some ([], [])
host_and_port (c ∷ s) =
    if c == b'['
    then bracketed (split_on (codes "]") s)
    else some (before_char b':' (c ∷ s), behind_first b':' (c ∷ s))

abbrev pub is_digit : ℕ → Bool
is_digit = is_between b'0' b'9'

abbrev pub all_digits : Bytes → Bool
all_digits [] = true
all_digits (c ∷ s) = is_digit c && all_digits s

-- `std::atoi` of digits.
abbrev pub atoi_from : ℕ → Bytes → ℕ
atoi_from n [] = n
atoi_from n (c ∷ s) = atoi_from (n * 10 + (c - b'0')) s

abbrev pub http : Bytes
http = codes "http"

abbrev pub https : Bytes
https = codes "https"

-- The port, if the text is one.
unfoldable pub port_of : Bytes → Bytes → Option ℕ
port_of scheme [] = some (if bytes_eq scheme https then 443 else 80)
port_of scheme (c ∷ s) =
    let port = atoi_from 0 (c ∷ s) in
    if not (all_digits (c ∷ s))
    then none
    else if ltb 5 (length (c ∷ s))
    then none
    else if ltb port 1 || ltb 65535 port
    then none
    else some port

unfoldable pub with_port : Bytes → Bytes → Bool → Option ℕ → UrlOrigin
with_port scheme host has_user_info none = no_origin has_user_info
with_port scheme host has_user_info (some port) = record {
  valid = true;
  scheme = scheme;
  host = to_lower host;
  port = port;
  has_user_info = has_user_info;
}

unfoldable pub with_host : Bytes → Bool → Option (Bytes × Bytes) → UrlOrigin
with_host scheme has_user_info none = no_origin has_user_info
with_host scheme has_user_info (some (host, port_text)) =
    if is_empty host
    then no_origin has_user_info
    else with_port scheme host has_user_info (port_of scheme port_text)

unfoldable pub with_authority : Bytes → Bytes → Option Bytes → UrlOrigin
with_authority scheme authority none = with_host scheme false (host_and_port authority)
with_authority scheme authority (some rest) = with_host scheme true (host_and_port rest)

unfoldable pub with_scheme : Option (Bytes × Bytes) → UrlOrigin
with_scheme none = no_origin false
with_scheme (some (before, behind)) =
    let scheme = to_lower before in
    let authority = authority_of behind in
    if not (bytes_eq scheme http) && not (bytes_eq scheme https)
    then no_origin false
    else with_authority scheme authority (behind_last b'@' authority)

unfoldable pub parse_url_origin : Bytes → UrlOrigin
parse_url_origin url = with_scheme (split_on (codes "://") url)

unfoldable pub is_safe_redirect_target : Bytes → Bytes → Bool
is_safe_redirect_target from_url to_url =
    let from = parse_url_origin from_url in
    let to = parse_url_origin to_url in
    if not (from.valid) || (not (to.valid) || to.has_user_info)
    then false
    else if not (bytes_eq (from.host) (to.host))
    then false
    else if bytes_eq (from.scheme) https && bytes_eq (to.scheme) http
    then false
    else true

unfoldable pub is_same_origin : Bytes → Bytes → Bool
is_same_origin url_a url_b =
    let a = parse_url_origin url_a in
    let b = parse_url_origin url_b in
    if not (a.valid) || (not (b.valid) || (a.has_user_info || b.has_user_info))
    then false
    else bytes_eq (a.scheme) (b.scheme) && (bytes_eq (a.host) (b.host) && a.port == b.port)
