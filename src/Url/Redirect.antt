-- ===== src/Url/Redirect.antt =====
-- Which redirects a request with credentials may follow (`IsSafeRedirectTarget` of
-- src/RedirectPolicy.cpp).
use mathlib.Core.Bool.{false≢true}
use pvr_dispatcharr_unoffici.Prelude.{
  ◌≡◌, ◌≢◌, refl, sym, ◌∙◌, Bool, true, false, not, ◌&&◌, ◌||◌, inl, inr, List, [], ◌∷◌, Bytes,
  bytes_eq, bytes_eq_iff, if◌then◌else◌, arith,
}
use pvr_dispatcharr_unoffici.Url.{UrlOrigin, http, https, parse_url_origin, is_safe_redirect_target}
use pvr_dispatcharr_unoffici.Url.Origin.{IsOrigin, parse_url_origin-IsOrigin}

-- Each URL of the chain is a safe redirect's target from the one before it.
abbrev pub SafeChain : Bytes → List Bytes → Type 0
SafeChain from_url [] = Unit
SafeChain from_url (to_url ∷ rest) =
    (is_safe_redirect_target from_url to_url ≡ true) × SafeChain to_url rest

abbrev pub last_url : Bytes → List Bytes → Bytes
last_url url [] = url
last_url url (next ∷ rest) = last_url next rest

-- What may be done with the credentials of `a` at `b`.
abbrev pub Trusts : UrlOrigin → UrlOrigin → Type 0
Trusts a b = (b.host ≡ a.host) × (a.scheme ≡ https → b.scheme ≡ https)

safe_parts :
    (a b : UrlOrigin) (same down : Bool)
    → (if not (a.valid) || (not (b.valid) || b.has_user_info)
        then false
        else if not same
        then false
        else if down
        then false
        else true)
      ≡ true
    → (b.valid ≡ true) × (b.has_user_info ≡ false) × (same ≡ true) × (down ≡ false)
safe_parts a b same down h = (ground arith, ground arith, ground arith, ground arith)

https_stays :
    (a b : UrlOrigin)
    → IsOrigin b
    → bytes_eq (a.scheme) https && bytes_eq (b.scheme) http ≡ false
    → a.scheme ≡ https
    → b.scheme ≡ https
https_stays a b o h secure = elim (o.web) [
  | inl plain ↦
      let e = (bytes_eq_iff (a.scheme) https).1 secure in
      let f = (bytes_eq_iff (b.scheme) http).1 plain in absurd (false≢true (sym h ∙ both _ _ e f))
  | inr s ↦ s
]
  where
    both : (x y : Bool) → x ≡ true → y ≡ true → x && y ≡ true
    both x y e f = ground arith

safe-Trusts :
    (from_url to_url : Bytes)
    → is_safe_redirect_target from_url to_url ≡ true
    → Trusts (parse_url_origin from_url) (parse_url_origin to_url)
      × ((parse_url_origin to_url).valid ≡ true)
      × ((parse_url_origin to_url).has_user_info ≡ false)
unfolding is_safe_redirect_target
safe-Trusts from_url to_url h =
    let a = parse_url_origin from_url in
    let b = parse_url_origin to_url in
    let (valid, no_info, same, down) =
      safe_parts a b (bytes_eq (a.host) (b.host))
        (bytes_eq (a.scheme) https && bytes_eq (b.scheme) http) h in
    (
      (
        sym ((bytes_eq_iff (a.host) (b.host)).0 same),
        https_stays a b (parse_url_origin-IsOrigin to_url valid) down,
      ),
      valid,
      no_info,
    )

-- However many redirects a request with credentials follows, if each is a safe target from the one
-- before, it is still at the host that it began at, and at https if it began there; and the last URL
-- is one of the web without user information, if there was any redirect.
pub SafeChain-Trusts :
    (url : Bytes) (rest : List Bytes)
    → SafeChain url rest
    → Trusts (parse_url_origin url) (parse_url_origin (last_url url rest))
      × (rest ≢ []
          → IsOrigin (parse_url_origin (last_url url rest))
            × ((parse_url_origin (last_url url rest)).has_user_info ≡ false))
SafeChain-Trusts url [] h = ((refl, λ e. e), λ none_left. absurd (none_left refl))
SafeChain-Trusts url (next ∷ rest) (safe, chain) =
    let ((same, secure), valid, no_info) = safe-Trusts url next safe in
    let ((same_later, secure_later), later) = SafeChain-Trusts next rest chain in
    (
      (same_later ∙ same, λ e. secure_later (secure e)),
      λ some_left. ends next rest later (parse_url_origin-IsOrigin next valid) no_info,
    )
  where
    ends :
        (next : Bytes) (rest : List Bytes)
        → (rest ≢ []
            → IsOrigin (parse_url_origin (last_url next rest))
              × ((parse_url_origin (last_url next rest)).has_user_info ≡ false))
        → IsOrigin (parse_url_origin next)
        → (parse_url_origin next).has_user_info ≡ false
        → IsOrigin (parse_url_origin (last_url next rest))
          × ((parse_url_origin (last_url next rest)).has_user_info ≡ false)
    ends next [] later o i = (o, i)
    ends next (u ∷ rest) later o i = later (λ e. cc)
