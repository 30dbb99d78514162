-- ===== src/Playlist/Follow.antt =====
-- An in-progress recording follows its playlist as that grows: the parser of
-- src/M3u8SegmentParser.cpp and the refresh of src/DispatcharrClient.cpp together.
use pvr_dispatcharr_unoffici.Prelude.{
  ℕ, zero, suc, ◌≤◌, ◌≡◌, refl, sym, ◌∙◌, ap, Bool-cases, inl, inr, List, [], ◌∷◌, ◌++◌, Bytes,
  take, drop, length, length-take, ◌==◌, arith,
}
use pvr_dispatcharr_unoffici.Recording.Refresh.{Stream, Round, refresh}
use pvr_dispatcharr_unoffici.Recording.Merge.{pending_urls, IsPrefix, refresh-IsPrefix, length-urls}
use pvr_dispatcharr_unoffici.Playlist.{
  DoubleLib, cons_line, lines, SegmentEntry, read_lines, rebase_recording_segment_url,
  parse_new_m3u8_segment_entries, rebase_entries, pending_entries,
}
use pvr_dispatcharr_unoffici.Playlist.Known.{parse-known, read_lines-grows}

pub lines-cons : (t : Bytes) → (l : Bytes) × (ls : List Bytes) × (lines t ≡ l ∷ ls)
unfolding lines
lines-cons [] = ([], [], refl)
lines-cons (c ∷ t) = elim (Bool-cases (c == b'\n')) [
  | inl e ↦ rw (e, lines) ([], lines t, refl)
  | inr e ↦ let (l, ls, h) = lines-cons t in rw (e, lines) (c ∷ l, ls, ap (cons_line c) h)
]

cons_line-append :
    (c : ℕ) (t : Bytes) (more : List Bytes)
    → cons_line c (lines t ++ more) ≡ cons_line c (lines t) ++ more
cons_line-append c t more = let (l, ls, e) = lines-cons t in rw e refl

-- A '\n' ends the lines before it.
lines-append : (t more : Bytes) → lines (t ++ b'\n' ∷ more) ≡ lines t ++ lines more
unfolding lines
lines-append [] more = refl
lines-append (c ∷ t) more = elim (Bool-cases (c == b'\n')) [
  | inl e ↦ rw (e, lines) (ap (λ z. [] ∷ z) (lines-append t more))
  | inr e ↦
      rw (e, lines) (ap (cons_line c) (lines-append t more) ∙ cons_line-append c t (lines more))
]

module _ (lib : DoubleLib) (base prefix base_dir : Bytes) where
  -- The URLs of a playlist, as they are stored.
  abbrev pub playlist_urls : Bytes → List Bytes
  playlist_urls text = pending_urls (pending_entries lib base prefix base_dir text 0)

  urls-drop :
      (n : ℕ) (entries : List (SegmentEntry lib))
      → pending_urls (rebase_entries lib base prefix (drop n entries))
        ≡ drop n (pending_urls (rebase_entries lib base prefix entries))
  urls-drop zero entries = refl
  urls-drop (suc n) [] = refl
  urls-drop (suc n) (e ∷ entries) = urls-drop n entries

  urls-append :
      (xs ys : List (SegmentEntry lib))
      → pending_urls (rebase_entries lib base prefix (xs ++ ys))
        ≡ pending_urls (rebase_entries lib base prefix xs)
          ++ pending_urls (rebase_entries lib base prefix ys)
  urls-append [] ys = refl
  urls-append (x ∷ xs) ys =
      ap (λ z. rebase_recording_segment_url (x.url) base prefix ∷ z) (urls-append xs ys)

  pending-known :
      (text : Bytes) (known : ℕ)
      → pending_urls (pending_entries lib base prefix base_dir text known)
        ≡ drop known (playlist_urls text)
  unfolding pending_entries
  pending-known text known =
      ap (λ e. pending_urls (rebase_entries lib base prefix e))
        (parse-known lib text base_dir known)
      ∙ urls-drop known _

  -- What the playlist gains stands behind what it had.
  urls-grow :
      (text more : Bytes)
      → (rest : List Bytes) × (playlist_urls (text ++ b'\n' ∷ more) ≡ playlist_urls text ++ rest)
  unfolding pending_entries parse_new_m3u8_segment_entries
  urls-grow text more =
      let (rest, e) = read_lines-grows lib base_dir 0 (lib.zero) (lines text) (lines more) in
      (
        pending_urls (rebase_entries lib base prefix rest),
        ap
              (λ l.
                pending_urls
                  (rebase_entries lib base prefix (read_lines lib base_dir 0 0 (lib.zero) l)))
              (lines-append text more)
            ∙ ap (λ z. pending_urls (rebase_entries lib base prefix z)) e
            ∙ urls-append _ rest,
      )

  take-append_front {ℓ} :
      {A : Type ℓ} (n : ℕ) (xs ys : List A) → n ≤ length xs → take n (xs ++ ys) ≡ take n xs
  take-append_front zero xs ys h = refl
  take-append_front (suc n) [] ys h = absurd (omega arith)
  take-append_front (suc n) (x ∷ xs) ys h =
      ap (λ z. x ∷ z) (take-append_front n xs ys (omega arith))

  IsPrefix-grows :
      (text more : Bytes) (s : Stream)
      → IsPrefix (playlist_urls text) s
      → IsPrefix (playlist_urls (text ++ b'\n' ∷ more)) s
  IsPrefix-grows text more s h =
      let (rest, e) = urls-grow text more in
      let n = length (s.segments) in
      let m = length-take n (playlist_urls text) in
      let k = ap length h in
      let j = length-urls (s.segments) in
      h ∙ sym (take-append_front n (playlist_urls text) rest (omega arith)) ∙ sym (ap (take n) e)

  -- Of a stream that has the first entries of the playlist, each once and in order: when the server has
  -- appended to the playlist behind a line's end, a refresh with the entries that the parser finds new
  -- there leaves it with the first entries of the longer playlist, each once and in order, their URLs
  -- rebased, whichever probes fail.
  pub refresh-follows :
      (text more : Bytes) (s : Stream) (r : Round)
      → IsPrefix (playlist_urls text) s
      → r.pending
        ≡ pending_entries lib base prefix base_dir (text ++ b'\n' ∷ more) (length (s.segments))
      → IsPrefix (playlist_urls (text ++ b'\n' ∷ more)) (refresh s r)
  refresh-follows text more s r h asked =
      refresh-IsPrefix (playlist_urls (text ++ b'\n' ∷ more)) s r (IsPrefix-grows text more s h)
        (ap pending_urls asked ∙ pending-known (text ++ b'\n' ∷ more) (length (s.segments)))
