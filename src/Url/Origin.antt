-- ===== src/Url/Origin.antt =====
-- What `ParseUrlOrigin` of src/RedirectPolicy.cpp takes for an origin.
use mathlib.Core.Bool.{false≢true}
use pvr_dispatcharr_unoffici.Prelude.{
  ℕ, ◌≤◌, ◌≡◌, ◌≢◌, sym, Bool, true, false, not, ◌&&◌, ◌||◌, by_if, inl, inr, ◌⊎◌, Option, none,
  some, [], ◌∷◌, Bytes, All, bytes_eq, eq_of-bytes_eq, is_empty, ltb, length, if◌then◌else◌, arith,
}
use pvr_dispatcharr_unoffici.Url.{
  is_between, ascii_to_lower, to_lower, UrlOrigin, no_origin, split_on, authority_of, behind_last,
  http, https, all_digits, atoi_from, port_of, with_port, with_host, with_authority, with_scheme,
  parse_url_origin,
}

abbrev pub IsLower : Bytes → Type 0
IsLower = All (λ c. is_between b'A' b'Z' c ≡ false)

-- An origin that a URL may have: one of the two schemes, a host in lower case, and a port.
pub record IsOrigin (o : UrlOrigin) : Type 0 where
  pub web : (o.scheme ≡ http) ⊎ (o.scheme ≡ https)
  pub named : o.host ≢ []
  pub lower : IsLower (o.host)
  pub port_low : 1 ≤ o.port
  pub port_high : o.port ≤ 65535

to_lower-IsLower : (s : Bytes) → IsLower (to_lower s)
to_lower-IsLower [] = tt
to_lower-IsLower (c ∷ s) = (lower c, to_lower-IsLower s)
  where
    lower : (c : ℕ) → is_between b'A' b'Z' (ascii_to_lower c) ≡ false
    lower c = ground arith

to_lower-nil : (s : Bytes) → is_empty s ≡ false → to_lower s ≢ []
to_lower-nil [] h = λ e. absurd (false≢true (sym h))
to_lower-nil (c ∷ s) h = λ e. cc

-- If it is valid, it is one.
abbrev Right : UrlOrigin → Type 0
Right o = o.valid ≡ true → IsOrigin o

abbrev IsPort : Option ℕ → Type 0
IsPort none = Unit
IsPort (some port) = (1 ≤ port) × (port ≤ 65535)

port_of-IsPort : (scheme text : Bytes) → IsPort (port_of scheme text)
unfolding port_of
port_of-IsPort scheme [] = default (bytes_eq scheme https)
  where
    default : (b : Bool) → IsPort (some (if b then 443 else 80))
    default b = (ground arith, ground arith)
port_of-IsPort scheme (c ∷ s) =
    let port = atoi_from 0 (c ∷ s) in
    by_if IsPort (not (all_digits (c ∷ s))) none _ (λ e. tt)
      (λ e.
        by_if IsPort (ltb 5 (length (c ∷ s))) none _ (λ f. tt)
          (λ f.
            by_if IsPort (ltb port 1 || ltb 65535 port) none (some port) (λ g. tt)
              (λ g. (ground arith, ground arith))))

with_port-Right :
    (scheme host : Bytes) (info : Bool) (port : Option ℕ)
    → (scheme ≡ http) ⊎ (scheme ≡ https)
    → is_empty host ≡ false
    → IsPort port
    → Right (with_port scheme host info port)
unfolding with_port
with_port-Right scheme host info none web named h = λ v. absurd (false≢true v)
with_port-Right scheme host info (some port) web named (lo, hi) = λ v. record {
  web = web;
  named = to_lower-nil host named;
  lower = to_lower-IsLower host;
  port_low = lo;
  port_high = hi;
}

with_host-Right :
    (scheme : Bytes) (info : Bool) (parts : Option (Bytes × Bytes))
    → (scheme ≡ http) ⊎ (scheme ≡ https)
    → Right (with_host scheme info parts)
unfolding with_host
with_host-Right scheme info none web = λ v. absurd (false≢true v)
with_host-Right scheme info (some (host, port_text)) web =
    by_if Right (is_empty host) (no_origin info)
      (with_port scheme host info (port_of scheme port_text)) (λ e v. absurd (false≢true v))
      (λ e. with_port-Right scheme host info _ web e (port_of-IsPort scheme port_text))

with_authority-Right :
    (scheme authority : Bytes) (rest : Option Bytes)
    → (scheme ≡ http) ⊎ (scheme ≡ https)
    → Right (with_authority scheme authority rest)
unfolding with_authority
with_authority-Right scheme authority none web = with_host-Right scheme false _ web
with_authority-Right scheme authority (some rest) web = with_host-Right scheme true _ web

web_scheme :
    (scheme : Bytes)
    → not (bytes_eq scheme http) && not (bytes_eq scheme https) ≡ false
    → (scheme ≡ http) ⊎ (scheme ≡ https)
web_scheme scheme h = elim (one_of _ _ h) [
  | inl e ↦ inl (eq_of-bytes_eq scheme http e)
  | inr e ↦ inr (eq_of-bytes_eq scheme https e)
]
  where
    one_of : (a b : Bool) → not a && not b ≡ false → (a ≡ true) ⊎ (b ≡ true)
    one_of a b h = ground arith

with_scheme-Right : (parts : Option (Bytes × Bytes)) → Right (with_scheme parts)
unfolding with_scheme
with_scheme-Right none = λ v. absurd (false≢true v)
with_scheme-Right (some (before, behind)) =
    let scheme = to_lower before in
    let authority = authority_of behind in
    by_if Right (not (bytes_eq scheme http) && not (bytes_eq scheme https)) (no_origin false)
      (with_authority scheme authority (behind_last b'@' authority)) (λ e v. absurd (false≢true v))
      (λ e. with_authority-Right scheme authority _ (web_scheme scheme e))

-- A URL that the parser takes has one of the two schemes in lower case, a host that is not empty, in
-- lower case, and a port from 1 to 65535.
pub parse_url_origin-IsOrigin :
    (url : Bytes) → (parse_url_origin url).valid ≡ true → IsOrigin (parse_url_origin url)
unfolding parse_url_origin
parse_url_origin-IsOrigin url = with_scheme-Right (split_on _ url)
