-- ===== src/Playlist/Known.antt =====
-- What src/M3u8SegmentParser.cpp gives for the number of segments that are known, and as the playlist
-- grows; and the refresh of src/DispatcharrClient.cpp that asks it.
use pvr_dispatcharr_unoffici.Prelude.{
  ℕ, zero, suc, ◌-◌, ◌≡◌, refl, sym, ◌∙◌, ap, true, Bool-cases, inl, inr, List, [], ◌∷◌, ◌++◌,
  Bytes, codes, drop, starts_with, leb, if◌then◌else◌, arith,
}
use pvr_dispatcharr_unoffici.Playlist.{
  DoubleLib, lines, strip_cr, is_uri, SegmentEntry, entry_of, read_lines,
  parse_new_m3u8_segment_entries,
}

leb_zero : (n : ℕ) → leb 0 n ≡ true
leb_zero n = ground arith

-- One entry, emitted where enough are known.
emit {ℓ} :
    {A : Type ℓ} (known index : ℕ) (x : A) (xs ys : List A)
    → xs ≡ drop (known - suc index) ys
    → (if leb known index then x ∷ xs else xs)
      ≡ drop (known - index) (if leb 0 index then x ∷ ys else ys)
emit known index x xs ys e = elim (Bool-cases (leb known index)) [
  | inl h ↦
      let none_left : known - index ≡ 0 = ground arith in
      let none_later : known - suc index ≡ 0 = ground arith in
      rw (h, leb_zero index, none_left) (ap (λ z. x ∷ z) (rw none_later at e))
  | inr h ↦
      let one_left : known - index ≡ suc (known - suc index) = ground arith in
      rw (h, leb_zero index, one_left) e
]

drop_nil {ℓ} : {A : Type ℓ} (n : ℕ) → drop {A = A} n [] ≡ []
drop_nil zero = refl
drop_nil (suc n) = refl

module _ (lib : DoubleLib) where
  open lib use {Real}

  read_lines-known :
      (base_dir : Bytes) (known index : ℕ) (pending : Real) (ls : List Bytes)
      → read_lines lib base_dir known index pending ls
        ≡ drop (known - index) (read_lines lib base_dir 0 index pending ls)
  unfolding read_lines
  read_lines-known base_dir known index pending [] = sym (drop_nil (known - index))
  read_lines-known base_dir known index pending (raw ∷ rest) =
      elim (Bool-cases (starts_with (codes "#EXTINF:") (strip_cr raw))) [
        | inl e ↦ rw (e, read_lines) (read_lines-known base_dir known index _ rest)
        | inr e ↦ elim (Bool-cases (is_uri (strip_cr raw))) [
          | inl f ↦
              rw (e, f, read_lines)
                (emit known index _ _ _
                  (read_lines-known base_dir known (suc index) (lib.zero) rest))
          | inr f ↦ rw (e, f, read_lines) (read_lines-known base_dir known index pending rest)
        ]
      ]

  -- Asked for what is new behind a number of known segments, the parser gives just what it would give
  -- behind none, without that many entries at the front.
  pub parse-known :
      (playlist_text base_dir : Bytes) (known : ℕ)
      → parse_new_m3u8_segment_entries lib playlist_text base_dir known
        ≡ drop known (parse_new_m3u8_segment_entries lib playlist_text base_dir 0)
  unfolding parse_new_m3u8_segment_entries
  parse-known playlist_text base_dir known =
      let all = read_lines lib base_dir 0 0 (lib.zero) (lines playlist_text) in
      read_lines-known base_dir known 0 (lib.zero) (lines playlist_text)
      ∙ ap (λ (n : ℕ). drop n all) (omega arith)

  pub read_lines-grows :
      (base_dir : Bytes) (index : ℕ) (pending : Real) (ls more : List Bytes)
      → (rest : List (SegmentEntry lib)) × (read_lines lib base_dir 0 index pending (ls ++ more)
          ≡ read_lines lib base_dir 0 index pending ls ++ rest)
  unfolding read_lines
  read_lines-grows base_dir index pending [] more =
      (read_lines lib base_dir 0 index pending more, refl)
  read_lines-grows base_dir index pending (raw ∷ ls) more =
      elim (Bool-cases (starts_with (codes "#EXTINF:") (strip_cr raw))) [
        | inl e ↦ rw (e, read_lines) (read_lines-grows base_dir index _ ls more)
        | inr e ↦ elim (Bool-cases (is_uri (strip_cr raw))) [
          | inl f ↦
              let (rest, h) = read_lines-grows base_dir (suc index) (lib.zero) ls more in
              rw (e, f, leb_zero index, read_lines)
                (rest, ap (λ z. entry_of lib base_dir (strip_cr raw) pending ∷ z) h)
          | inr f ↦ rw (e, f, read_lines) (read_lines-grows base_dir index pending ls more)
        ]
      ]
