-- ===== src/Live/Session/Steps.antt =====
-- What each call does to a session of the live stream: the invariant, and the lemmas that the laws
-- of its steps use.
use mathlib.Core.Bool.{false≢true}
use pvr_dispatcharr_unoffici.Prelude.{
  ℕ, suc, ◌≤◌, ◌≡◌, ◌≢◌, refl, sym, ◌∙◌, ap, subst, Bool, true, false, Bool-cases, inl, inr, ◌⊎◌,
  ◌&&◌, not, ◌||◌, ◌==◌, ◌+◌, Option, Option-cases, none, some, List, [], ◌∷◌, if◌then◌else◌, codes,
  arith,
}
use pvr_dispatcharr_unoffici.Prelude.Int.{
  ℤ, pos, negsuc, ◌+ℤ◌, ◌≤ℤ◌, ltb_ℤ, eqb_ℤ, pos_part, neg_part, int_laws, eq_of_parts,
}
use pvr_dispatcharr_unoffici.Json.{JsonLib, field_or_bool}
use pvr_dispatcharr_unoffici.Segments.{find_segment_containing_position}
use pvr_dispatcharr_unoffici.Segments.Chain.{Located, find_segment-Located}
use pvr_dispatcharr_unoffici.Live.{Entry, segment_t, Stream}
use pvr_dispatcharr_unoffici.Live.Calls.{
  append_entry, append_entries, prune, note_oldest, merge_manifest, finish_refresh,
  first_available_live_byte_offset, skip_rolled_off, Fetch, choose_fetch,
}
use pvr_dispatcharr_unoffici.Live.Invariant.{IsValid}
use pvr_dispatcharr_unoffici.Live.Refresh.{merge_manifest_growth}
use pvr_dispatcharr_unoffici.Live.Seek.{move-IsValid, Lands}
use pvr_dispatcharr_unoffici.Live.Read.{skip_rolled_off-IsValid, Serves, serve, commits, refuses}
use pvr_dispatcharr_unoffici.Live.Session.{
  Flight, Session, fresh_stream, quiet, answers, commit_flight, view, Moves, jumps, reads,
  says_again,
}

-- A read of this session in flight lies between the start of the stream and its tail.
abbrev pub Flying : Session → Option Flight → Type 0
Flying c none = Unit
Flying c (some flight) =
    (flight.session ≤ c.session)
    × (flight.session ≡ c.session
        → (c.playing ≡ true)
          × (pos 0 ≤ℤ flight.position_at_fetch)
          × (flight.position_at_fetch +ℤ flight.want_size ≤ℤ (c.stream).total_bytes))

pub record IsConsistent (c : Session) : Type 0 where
  pub valid : IsValid (c.stream)
  pub flying : Flying c (c.in_flight)

pub fresh-IsValid : (open_ : Bool) → IsValid (fresh_stream open_)
fresh-IsValid open_ = record {
  chain = tt;
  begins = omega arith;
  times = tt;
  begins_ms = omega arith;
  ascending = tt;
  numbered = tt;
  not_empty = tt;
  covered = λ e. refl;
  placed = omega arith;
  within = omega arith;
}

none-absurd {ℓ} : {A : Type ℓ} {a : A} → none ≢ some a
none-absurd e = cc

some_injective {ℓ} : {A : Type ℓ} {a b : A} → some a ≡ some b → a ≡ b
some_injective e = cc

no_fetch :
    (s : Stream) (size : ℤ)
    → find_segment_containing_position (s.position) (s.segments) ≡ none
    → choose_fetch s size ≡ none
unfolding choose_fetch
no_fetch s size e = rw (e, choose_fetch) refl

-- A fetch that the state chooses is one that it serves.
pub choose_fetch_sound :
    (s : Stream) (size : ℤ) (f : Fetch)
    → IsValid s
    → pos 1 ≤ℤ size
    → choose_fetch s size ≡ some f
    → Serves s size f
choose_fetch_sound s size f v one found =
    elim (Option-cases (find_segment_containing_position (s.position) (s.segments))) [
      | inl e ↦ absurd (none-absurd (sym (no_fetch s size e) ∙ found))
      | inr (seg, e) ↦
          let (first, lo, hi, end) =
            subst (Located (s.position) (s.segments) (s.total_bytes)) e
              (find_segment-Located (s.position) (s.segments) (s.total_bytes) (v.chain)) in
          let (g, served, h) = serve s size seg one lo hi end e in
          subst (Serves s size) (some_injective (sym served ∙ found)) h
    ]

-- The stream may grow under a read in flight.
pub Flying-keep :
    (c : Session) (s : Stream) (flight : Option Flight)
    → (c.stream).total_bytes ≤ℤ s.total_bytes
    → Flying c flight
    → Flying (record c { stream = s }) flight
Flying-keep c s none le h = tt
Flying-keep c s (some flight) le (old, h) =
    (old, λ same. let (p, lo, hi) = h same in (p, lo, omega arith))

pub Flying-replaced :
    (c : Session) (open_ : Bool) (flight : Option Flight)
    → Flying c flight
    → Flying
        (record c { stream = fresh_stream open_; session = suc (c.session); playing = false })
        flight
Flying-replaced c open_ none h = tt
Flying-replaced c open_ (some flight) (old, h) = (omega arith, λ same. absurd (omega arith))

pub Flying-opened :
    (c : Session) (s : Stream) (flight : Option Flight)
    → c.playing ≡ false
    → Flying c flight
    → Flying (record c { stream = s; playing = true }) flight
Flying-opened c s none waiting h = tt
Flying-opened c s (some flight) waiting (old, h) =
    (old, λ same. absurd (false≢true (sym waiting ∙ (h same).0)))

-- A refresh leaves the position and only adds to the stream.
position-append_entries :
    (s : Stream) (entries : List Entry) → (append_entries s entries).position ≡ s.position
unfolding append_entries append_entry
position-append_entries s [] = refl
position-append_entries s (e ∷ entries) = position-append_entries (append_entry s e) entries

position-note_oldest : (s : Stream) (oldest : ℤ) → (note_oldest s oldest).position ≡ s.position
unfolding note_oldest
position-note_oldest s oldest = ground arith

position-if :
    (b : Bool) (s : Stream) → (if b then record s { ended = true } else s).position ≡ s.position
position-if true s = refl
position-if false s = refl

-- `t` is `s` with another position in the stream.
abbrev pub Moved : Stream → Stream → Type 0
Moved s t = IsValid t × (t ≡ record s { position = t.position })

at_position :
    (s t : Stream) (p : ℤ) → t ≡ record s { position = p } → t ≡ record s { position = t.position }
at_position s t p e =
    e ∙ ap (λ (q : ℤ). record s { position = q }) (sym (ap (λ (u : Stream). u.position) e))

skip-cases :
    (s : Stream)
    → (skip_rolled_off s ≡ record s { position = first_available_live_byte_offset s })
      ⊎ (skip_rolled_off s ≡ s)
unfolding skip_rolled_off
skip-cases s = elim (Bool-cases (ltb_ℤ (s.position) (first_available_live_byte_offset s))) [
  | inl behind ↦ inl (rw (behind, skip_rolled_off) refl)
  | inr held ↦ inr (rw (held, skip_rolled_off) refl)
]

pub Moved-skip_rolled_off : (s : Stream) → IsValid s → Moved s (skip_rolled_off s)
Moved-skip_rolled_off s v = (
  (skip_rolled_off-IsValid s v).0,
  elim (skip-cases s) [ inl e ↦ at_position s _ _ e | inr e ↦ at_position s _ (s.position) e ],
)

pub Moved-seek : (s : Stream) (r : ℤ × Stream) → IsValid s → Lands s r → Moved s (r.1)
Moved-seek s r v (inl e) = rw e (v, refl)
Moved-seek s r v (inr (e, lo, hi, w, held)) = (w, at_position s _ _ e)

pub Moved-IsConsistent :
    (c : Session) (t : Stream)
    → Moved (c.stream) t
    → IsConsistent c
    → IsConsistent (record c { stream = t })
Moved-IsConsistent c t (w, e) k = record {
  valid = w;
  flying = Flying-keep c t (c.in_flight) (rw e (omega arith)) (k.flying);
}

pub Moved-jumps :
    (c : Session) (t : Stream)
    → Moved (c.stream) t
    → c.playing ≡ true
    → Moves (view c) quiet (view (record c { stream = t }))
unfolding view
Moved-jumps c t (w, e) playing =
    let same_tail = ap (λ (s : Stream). s.total_bytes) e in
    subst
      (λ b. Moves (view c) quiet (record {
        session = c.session;
        playing = c.playing;
        position = t.position;
        tail = b;
        reading = c.in_flight;
      }))
      (sym same_tail)
      (jumps (t.position) playing (w.placed) (subst (λ b. t.position ≤ℤ b) same_tail (w.within)))

-- The commit of a read in flight: either the bytes lie in the stream, or it refuses.
eqb_ℤ-eq :
    (b : Bool) (x y : ℤ) → b && eqb_ℤ x y ≡ true → pos_part x + neg_part y ≡ pos_part y + neg_part x
eqb_ℤ-eq b x y h = ground arith

abbrev Commits : Session → Flight → ℤ → Type 0
Commits c flight written =
    ((commit_flight c flight written ≡ (negsuc 0, c.stream))
      × ((flight.session ≢ c.session) ⊎ (flight.position_at_fetch ≢ (c.stream).position)))
    ⊎ ((commit_flight c flight written
          ≡ (written, record c.stream { position = (c.stream).position +ℤ written }))
        × (c.playing ≡ true)
        × ((c.stream).position +ℤ written ≤ℤ (c.stream).total_bytes)
        × (flight.session ≡ c.session)
        × (flight.position_at_fetch ≡ (c.stream).position))

disturbed : (a b : ℕ) (x y : ℤ) → (a == b) && eqb_ℤ x y ≡ false → (a ≢ b) ⊎ (y ≢ x)
disturbed a b x y h = elim (Bool-cases (a == b)) [
  | inl e ↦ inr (λ q. ground arith)
  | inr e ↦ inl (λ q. ground arith)
]

pub commit-cases :
    (c : Session) (flight : Flight) (written : ℤ)
    → IsConsistent c
    → c.in_flight ≡ some flight
    → pos 0 ≤ℤ written
    → written ≤ℤ flight.want_size
    → Commits c flight written
commit-cases c flight written k flying lo hi =
    elim (Bool-cases
      ((flight.session == c.session) && eqb_ℤ ((c.stream).position) (flight.position_at_fetch))) [
        | inl same ↦
            let h = subst (Flying c) flying (k.flying) in
            let (playing, low, high) = h.1 (ground arith) in
            let at = eq_of_parts ((c.stream).position) (flight.position_at_fetch) (
              eqb_ℤ-eq (flight.session == c.session) ((c.stream).position)
                (flight.position_at_fetch) same) in
            inr (
              commits _ _ _ _ same,
              playing,
              rw at (omega (int_laws, high, hi)),
              ground arith,
              sym at,
            )
        | inr other ↦ inl (refuses _ _ _ _ other, disturbed _ _ _ _ other)
      ]

pub commit-IsValid :
    (c : Session) (flight : Flight) (written : ℤ)
    → IsConsistent c
    → pos 0 ≤ℤ written
    → Commits c flight written
    → IsValid (commit_flight c flight written).1
commit-IsValid c flight written k lo (inl (e, apart)) = rw e (k.valid)
commit-IsValid c flight written k lo (inr (e, playing, within, same, at)) =
    let p = (k.valid).placed in rw e (move-IsValid (c.stream) _ (k.valid) (omega int_laws) within)

pub commit-Moves :
    (c : Session) (flight : Flight) (written : ℤ)
    → c.in_flight ≡ some flight
    → pos 0 ≤ℤ written
    → written ≤ℤ flight.want_size
    → Commits c flight written
    → Moves
        (view c)
        (answers ((commit_flight c flight written).0))
        (view (record c { stream = (commit_flight c flight written).1; in_flight = none }))
unfolding view
commit-Moves c flight written flying lo hi (inl (e, apart)) = rw e (says_again flight flying apart)
commit-Moves c flight written flying lo hi (inr (e, playing, within, same, at)) =
    rw e (reads flight written flying same at playing lo hi within)

module _ (lib : JsonLib) where
  open lib use {Json}

  position-merge :
      (s : Stream) (result : Json) (manifest : List Json)
      → (merge_manifest lib s result manifest).position ≡ s.position
  unfolding merge_manifest prune
  position-merge s result manifest =
      position-note_oldest _ _
      ∙ position-if (field_or_bool lib result (codes "ended") false) _
      ∙ position-append_entries s _

  pub refresh-grows :
      (s : Stream) (same_session : Bool) (result : Json) (manifest : List Json)
      → let t = (finish_refresh lib s same_session result manifest).1 in
        (t.position ≡ s.position) × (s.total_bytes ≤ℤ t.total_bytes)
  unfolding finish_refresh
  refresh-grows s same_session result manifest =
      elim (Bool-cases (not (s.open_) || not same_session)) [
        | inl e ↦ rw (e, finish_refresh) (refl, omega arith)
        | inr e ↦
            rw (e, finish_refresh)
              (position-merge s result manifest, (merge_manifest_growth lib s result manifest).0)
      ]
