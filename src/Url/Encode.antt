-- ===== src/Url/Encode.antt =====
-- Percent encoding read back (src/UrlEncode.cpp).
use pvr_dispatcharr_unoffici.Prelude.{
  ℕ, ◌+◌, ◌-◌, ◌*◌, ◌/◌, ◌^◌, ◌<◌, bit_and, ◌≡◌, refl, ap, ◌∙◌, Bool, true, false, ◌&&◌, ◌||◌,
  Bool-cases, inl, inr, [], ◌∷◌, ◌++◌, Bytes, All, All-append, get_or, ◌==◌, ==_iff, if◌then◌else◌,
  arith,
}
use pvr_dispatcharr_unoffici.Prelude.Bits.{every_passes, passes_each}
use pvr_dispatcharr_unoffici.Url.{is_between, is_unreserved, hex_digits, encode_byte, url_encode}

abbrev hex_value : ℕ → ℕ
hex_value c = if is_between b'0' b'9' c then c - b'0' else c - 55

-- What a server makes of percent encoding (RFC 3986): each '%' and its two digits are one byte.
pub percent_decode : Bytes → Bytes
percent_decode [] = []
percent_decode (c ∷ []) = c ∷ []
percent_decode (c ∷ d ∷ []) = c ∷ d ∷ []
percent_decode (c ∷ d ∷ e ∷ rest) =
    let behind = percent_decode rest in
    let next = percent_decode (d ∷ e ∷ rest) in
    if c == b'%' then (hex_value d * 16 + hex_value e) ∷ behind else c ∷ next

abbrev digits_right : ℕ → Bool
digits_right c =
    hex_value (get_or hex_digits (c / 2 ^ 4) 0) * 16
      + hex_value (get_or hex_digits (bit_and c 0x0f) 0)
    == c

digits_table : every_passes digits_right 256 ≡ true
unfolding every_passes
digits_table = refl

abbrev digits_safe : ℕ → Bool
digits_safe c =
    is_unreserved (get_or hex_digits (c / 2 ^ 4) 0)
    && is_unreserved (get_or hex_digits (bit_and c 0x0f) 0)

safe_table : every_passes digits_safe 256 ≡ true
unfolding every_passes
safe_table = refl

decode_plain :
    (c : ℕ) (rest : Bytes)
    → (c == b'%') ≡ false
    → percent_decode (c ∷ rest) ≡ c ∷ percent_decode rest
unfolding percent_decode
decode_plain c [] h = refl
decode_plain c (d ∷ []) h = refl
decode_plain c (d ∷ e ∷ rest) h = rw (h, percent_decode) refl

decode-encode_byte :
    (c : ℕ) (rest : Bytes)
    → c < 256
    → percent_decode (encode_byte c ++ rest) ≡ c ∷ percent_decode rest
unfolding percent_decode encode_byte
decode-encode_byte c rest h = elim (Bool-cases (is_unreserved c)) [
  | inl e ↦ rw (e, encode_byte) (decode_plain c rest (not_percent c e))
  | inr e ↦
      rw (e, encode_byte)
        (ap (λ z. z ∷ percent_decode rest)
          ((==_iff _ c).0 (passes_each digits_right 256 digits_table c h)))
]
  where
    not_percent : (c : ℕ) → is_unreserved c ≡ true → (c == b'%') ≡ false
    not_percent c h = ground arith

abbrev pub IsSafe : ℕ → Type 0
IsSafe c = (is_unreserved c || (c == b'%')) ≡ true

encode_byte-IsSafe : (c : ℕ) → c < 256 → All IsSafe (encode_byte c)
unfolding encode_byte
encode_byte-IsSafe c h = elim (Bool-cases (is_unreserved c)) [
  | inl e ↦ rw (e, encode_byte) (rw e refl, tt)
  | inr e ↦
      let (a, b) =
        both (is_unreserved (get_or hex_digits (c / 2 ^ 4) 0))
          (is_unreserved (get_or hex_digits (bit_and c 0x0f) 0))
          (passes_each digits_safe 256 safe_table c h) in
      rw (e, encode_byte) (refl, (rw a refl, (rw b refl, tt)))
]
  where
    both : (a b : Bool) → a && b ≡ true → (a ≡ true) × (b ≡ true)
    both a b h = (ground arith, ground arith)

-- An encoded text holds only unreserved characters and '%', whatever its bytes, and a server that
-- decodes it has the text again.
pub url_encode-decodes :
    (value : Bytes)
    → All (λ c. c < 256) value
    → (percent_decode (url_encode value) ≡ value) × All IsSafe (url_encode value)
unfolding url_encode
url_encode-decodes [] h = (unfold percent_decode in refl, tt)
url_encode-decodes (c ∷ value) (h, all) =
    let (e, safe) = url_encode-decodes value all in
    (
      decode-encode_byte c (url_encode value) h ∙ ap (λ z. c ∷ z) e,
      All-append IsSafe (encode_byte c) (url_encode value) (encode_byte-IsSafe c h) safe,
    )
