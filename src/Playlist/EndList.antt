-- ===== src/Playlist/EndList.antt =====
-- The tag that ends a playlist (`M3u8HasEndList` of src/M3u8SegmentParser.cpp), and the lines that its
-- functions go by.
use mathlib.Core.Bool.{false≢true}
use pvr_dispatcharr_unoffici.Prelude.{
  ℕ, ◌≡◌, refl, sym, ◌∙◌, ap, ap₂, true, false, ◌&&◌, Bool-cases, inl, inr, ◌⊎◌, ◌↔◌, List, [], ◌∷◌,
  ◌++◌, Bytes, All, bytes_eq, bytes_eq_iff, is_empty, ◌==◌, arith,
}
use pvr_dispatcharr_unoffici.Playlist.Follow.{lines-cons}
use pvr_dispatcharr_unoffici.Playlist.{
  cons_line, lines, is_trailing_blank, strip_blanks, end_list_tag, has_end_list_line,
  m3u8_has_end_list,
}

abbrev pub AllBlank : Bytes → Type 0
AllBlank = All (λ c. is_trailing_blank c ≡ true)

-- The line is the tag, with nothing but carriage returns, spaces and tabs behind it.
abbrev pub IsTagLine : Bytes → Type 0
IsTagLine line = (blanks : Bytes) × AllBlank blanks × (line ≡ end_list_tag ++ blanks)

abbrev pub HasTagLine : List Bytes → Type 0
HasTagLine [] = ⊥
HasTagLine (line ∷ rest) = IsTagLine line ⊎ HasTagLine rest

strips :
    (rest : Bytes) (c : ℕ)
    → is_empty rest && is_trailing_blank c ≡ true
    → (rest ≡ []) × (is_trailing_blank c ≡ true)
strips [] c h = (refl, h)
strips (d ∷ rest) c h = absurd (false≢true h)

strip-split :
    (line : Bytes) → (blanks : Bytes) × AllBlank blanks × (line ≡ strip_blanks line ++ blanks)
strip-split [] = ([], tt, refl)
strip-split (c ∷ s) =
    let (blanks, all, e) = strip-split s in
    elim (Bool-cases (is_empty (strip_blanks s) && is_trailing_blank c)) [
      | inl h ↦
          let (nothing, blank) = strips (strip_blanks s) c h in
          rw h (c ∷ blanks, (blank, all), ap (λ z. c ∷ z) (e ∙ ap (λ z. z ++ blanks) nothing))
      | inr h ↦ rw h (blanks, all, ap (λ z. c ∷ z) e)
    ]

strip-blank : (blanks : Bytes) → AllBlank blanks → strip_blanks blanks ≡ []
strip-blank [] h = refl
strip-blank (c ∷ blanks) (h, all) = rw (strip-blank blanks all, h) refl

strip-append : (xs blanks : Bytes) → AllBlank blanks → strip_blanks (xs ++ blanks) ≡ strip_blanks xs
strip-append [] blanks all = strip-blank blanks all
strip-append (x ∷ xs) blanks all = rw (strip-append xs blanks all) refl

IsTagLine-iff : (line : Bytes) → (bytes_eq (strip_blanks line) end_list_tag ≡ true) ↔ IsTagLine line
IsTagLine-iff line = (
  λ h.
      let (blanks, all, e) = strip-split line in
      (
        blanks,
        all,
        e ∙ ap (λ z. z ++ blanks) ((bytes_eq_iff (strip_blanks line) end_list_tag).0 h),
      ),
  λ (blanks, all, e).
      (bytes_eq_iff (strip_blanks line) end_list_tag).1
        (ap strip_blanks e ∙ strip-append end_list_tag blanks all),
)

has_end_list_line_iff : (ls : List Bytes) → (has_end_list_line ls ≡ true) ↔ HasTagLine ls
unfolding has_end_list_line
has_end_list_line_iff [] = (λ h. false≢true h, λ h. absurd h)
has_end_list_line_iff (line ∷ rest) =
    let (forth, back) = has_end_list_line_iff rest in
    let (tag, line_is) = IsTagLine-iff line in
    elim (Bool-cases (bytes_eq (strip_blanks line) end_list_tag)) [
      | inl e ↦ rw (e, has_end_list_line) (λ h. inl (tag e), λ h. refl)
      | inr e ↦
          rw (e, has_end_list_line)
            (
              λ h. inr (forth h),
              λ h. elim h [
                | inl l ↦ absurd (false≢true (sym e ∙ line_is l))
                | inr later ↦ back later
              ],
            )
    ]

-- A playlist is taken for ended exactly where one of its lines is the end tag, with nothing but
-- carriage returns, spaces and tabs behind it.
pub m3u8_has_end_list_iff :
    (text : Bytes) → (m3u8_has_end_list text ≡ true) ↔ HasTagLine (lines text)
unfolding m3u8_has_end_list
m3u8_has_end_list_iff text = has_end_list_line_iff (lines text)

abbrev pub NoNewline : Bytes → Type 0
NoNewline = All (λ c. (c == b'\n') ≡ false)

-- Lines put together again, a '\n' between two of them.
abbrev pub unlines : List Bytes → Bytes
unlines [] = []
unlines (l ∷ []) = l
unlines (l ∷ m ∷ ls) = l ++ b'\n' ∷ unlines (m ∷ ls)

unlines-cons_line : (c : ℕ) (ls : List Bytes) → unlines (cons_line c ls) ≡ c ∷ unlines ls
unlines-cons_line c [] = refl
unlines-cons_line c (l ∷ []) = refl
unlines-cons_line c (l ∷ m ∷ ls) = refl

NoNewline-cons_line :
    (c : ℕ) (ls : List Bytes)
    → (c == b'\n') ≡ false
    → All NoNewline ls
    → All NoNewline (cons_line c ls)
NoNewline-cons_line c [] h all = ((h, tt), tt)
NoNewline-cons_line c (l ∷ ls) h (first, all) = ((h, first), all)

unlines-nil : (text : Bytes) → unlines ([] ∷ lines text) ≡ b'\n' ∷ unlines (lines text)
unlines-nil text = let (l, ls, e) = lines-cons text in rw e refl

-- The lines that the functions go by are those of the text: none of them has a '\n', and put together
-- again, one '\n' between two of them, they are the text.
pub unlines-lines : (text : Bytes) → (unlines (lines text) ≡ text) × All NoNewline (lines text)
unfolding lines
unlines-lines [] = (refl, (tt, tt))
unlines-lines (c ∷ text) =
    let (e, all) = unlines-lines text in
    elim (Bool-cases (c == b'\n')) [
      | inl h ↦ rw (h, lines) (unlines-nil text ∙ ap₂ ◌∷◌ (sym (newline c h)) e, (tt, all))
      | inr h ↦
          rw (h, lines)
            (unlines-cons_line c (lines text) ∙ ap (λ z. c ∷ z) e, NoNewline-cons_line c _ h all)
    ]
  where
    newline : (c : ℕ) → (c == b'\n') ≡ true → c ≡ b'\n'
    newline c h = ground arith
