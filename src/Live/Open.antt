-- ===== src/Live/Open.antt =====
-- The trim of the first manifest and the start position
-- (`OpenLiveTimeshiftStream` of src/DispatcharrClient.cpp).
use pvr_dispatcharr_unoffici.Prelude.{
  suc, ◌-◌, ◌≤◌, ◌<◌, min, ◌≡◌, refl, sym, ◌∙◌, ap, Bool-cases, inl, inr, List, [], ◌∷◌, length,
  length-drop, drop, All, All-drop, ltb, arith,
}
use pvr_dispatcharr_unoffici.Prelude.Int.{ℤ, pos, ◌+ℤ◌, ◌-ℤ◌, ◌≤ℤ◌, ◌<ℤ◌, int_laws}
use pvr_dispatcharr_unoffici.Segments.{compute_live_edge_start_position}
use pvr_dispatcharr_unoffici.Segments.Chain.{
  start, Chain, start_ms, Times, start-le, Chain-drop, Times-drop,
}
use pvr_dispatcharr_unoffici.Segments.Tail.{start_position-trailing}
use pvr_dispatcharr_unoffici.Live.{
  Segment, segment_t, Stream, rebase, rebase_kept, trim_to_trailing_live_edge_margin,
}
use pvr_dispatcharr_unoffici.Live.Calls.{start_at_live_edge, live_edge_margin_segments}
use pvr_dispatcharr_unoffici.Live.Window.{Ascending, Numbered}
use pvr_dispatcharr_unoffici.Live.Invariant.{IsValid, NotEmpty, Ascending-drop}

-- A subtraction moves a sum.
shift_sum : (a b c : ℤ) → a -ℤ c +ℤ b ≡ a +ℤ b -ℤ c
shift_sum a b c = omega int_laws

start-rebase :
    (b t : ℤ) (segments : List Segment) (end : ℤ)
    → start (rebase b t segments) (end -ℤ b) ≡ start segments end -ℤ b
start-rebase b t [] end = refl
start-rebase b t (s ∷ segments) end = refl

Chain-rebase :
    (b t : ℤ) (segments : List Segment) (end : ℤ)
    → Chain segments end
    → Chain (rebase b t segments) (end -ℤ b)
Chain-rebase b t [] end c = tt
Chain-rebase b t (s ∷ segments) end (size, next, rest) = (
  size,
  shift_sum (s.byte_offset) (s.byte_size) b
      ∙ ap (λ z. z -ℤ b) next
      ∙ sym (start-rebase b t segments end),
  Chain-rebase b t segments end rest,
)

start_ms-rebase :
    (b t : ℤ) (segments : List Segment) (end : ℤ)
    → start_ms (rebase b t segments) (end -ℤ t) ≡ start_ms segments end -ℤ t
start_ms-rebase b t [] end = refl
start_ms-rebase b t (s ∷ segments) end = refl

sub_mono : (a b c : ℤ) → a ≤ℤ b → a -ℤ c ≤ℤ b -ℤ c
sub_mono a b c h = omega int_laws

Times-rebase :
    (b t : ℤ) (segments : List Segment) (end : ℤ)
    → Times segments end
    → Times (rebase b t segments) (end -ℤ t)
Times-rebase b t [] end c = tt
Times-rebase b t (s ∷ segments) end (next, rest) = (
  rw (start_ms-rebase b t segments end)
      (sub_mono (s.time_offset_ms) (start_ms segments end) t next),
  Times-rebase b t segments end rest,
)

above-rebase :
    (b t n : ℤ) (segments : List Segment)
    → All (λ s. n <ℤ s.sequence) segments
    → All (λ s. n <ℤ s.sequence) (rebase b t segments)
above-rebase b t n [] a = tt
above-rebase b t n (s ∷ segments) (h, a) = (h, above-rebase b t n segments a)

Ascending-rebase :
    (b t : ℤ) (segments : List Segment) → Ascending segments → Ascending (rebase b t segments)
Ascending-rebase b t [] a = tt
Ascending-rebase b t (s ∷ segments) (h, a) =
    (above-rebase b t (s.sequence) segments h, Ascending-rebase b t segments a)

Numbered-rebase :
    (b t : ℤ) (segments : List Segment) → Numbered segments → Numbered (rebase b t segments)
Numbered-rebase b t [] a = tt
Numbered-rebase b t (s ∷ segments) (h, a) = (h, Numbered-rebase b t segments a)

NotEmpty-rebase :
    (b t : ℤ) (segments : List Segment) → NotEmpty segments → NotEmpty (rebase b t segments)
NotEmpty-rebase b t [] a = tt
NotEmpty-rebase b t (s ∷ segments) (h, a) = (h, NotEmpty-rebase b t segments a)

length-rebase : (b t : ℤ) (segments : List Segment) → length (rebase b t segments) ≡ length segments
length-rebase b t [] = refl
length-rebase b t (s ∷ segments) = ap suc (length-rebase b t segments)

-- What a list and its totals have to satisfy, without the position.
record IsTrimmed (segments : List Segment) (total total_ms : ℤ) : Type 0 where
  chain : Chain segments total
  begins : pos 0 ≤ℤ start segments total
  times : Times segments total_ms
  begins_ms : pos 0 ≤ℤ start_ms segments total_ms
  ascending : Ascending segments
  numbered : Numbered segments
  not_empty : NotEmpty segments
  covered : length segments ≡ 0 → total ≡ pos 0
  short : length segments ≤ live_edge_margin_segments

sub_self : (a : ℤ) → a -ℤ a ≡ pos 0
sub_self a = omega int_laws

rebase_kept-IsTrimmed :
    (segments : List Segment) (total total_ms : ℤ)
    → Chain segments total
    → Times segments total_ms
    → Ascending segments
    → Numbered segments
    → NotEmpty segments
    → 0 < length segments
    → length segments ≤ live_edge_margin_segments
    → let (kept, bytes, ms) = rebase_kept segments total total_ms in
      IsTrimmed kept bytes ms × (start kept bytes ≡ pos 0)
unfolding rebase_kept
rebase_kept-IsTrimmed [] total total_ms c t a n e some_left le = absurd (omega arith)
rebase_kept-IsTrimmed (s ∷ segments) total total_ms c t a n e some_left le = (
  record {
    chain = Chain-rebase (s.byte_offset) (s.time_offset_ms) (s ∷ segments) total c;
    begins = rw (sub_self (s.byte_offset)) (omega arith);
    times = Times-rebase (s.byte_offset) (s.time_offset_ms) (s ∷ segments) total_ms t;
    begins_ms = rw (sub_self (s.time_offset_ms)) (omega arith);
    ascending = Ascending-rebase (s.byte_offset) (s.time_offset_ms) (s ∷ segments) a;
    numbered = Numbered-rebase (s.byte_offset) (s.time_offset_ms) (s ∷ segments) n;
    not_empty = NotEmpty-rebase (s.byte_offset) (s.time_offset_ms) (s ∷ segments) e;
    covered = λ z. absurd (omega arith);
    short = omega (arith, length-rebase (s.byte_offset) (s.time_offset_ms) segments);
  },
  sub_self (s.byte_offset),
)

trim-IsTrimmed :
    (s : Stream)
    → IsValid s
    → let (kept, bytes, ms) =
        trim_to_trailing_live_edge_margin
          (s.segments)
          (s.total_bytes)
          (s.total_duration_ms)
          live_edge_margin_segments in
      IsTrimmed kept bytes ms
      × (live_edge_margin_segments < length (s.segments) → start kept bytes ≡ pos 0)
unfolding trim_to_trailing_live_edge_margin
trim-IsTrimmed s v = elim (Bool-cases (ltb live_edge_margin_segments (length (s.segments)))) [
  | inl more ↦
      let n = length (s.segments) - live_edge_margin_segments in
      let some_left = length-drop n (s.segments) in
      let kept =
        rebase_kept-IsTrimmed (drop n (s.segments)) (s.total_bytes) (s.total_duration_ms)
          (Chain-drop n (s.segments) _ (v.chain)) (Times-drop n (s.segments) _ (v.times))
          (Ascending-drop n (s.segments) (v.ascending))
          (All-drop (λ t. pos 0 ≤ℤ t.sequence) n (s.segments) (v.numbered))
          (All-drop (λ t. pos 1 ≤ℤ t.byte_size) n (s.segments) (v.not_empty)) (ground arith)
          (omega arith) in
      rw (more, trim_to_trailing_live_edge_margin) (kept.0, λ _. kept.1)
  | inr few ↦
      rw (few, trim_to_trailing_live_edge_margin)
        (
          record {
            chain = v.chain;
            begins = v.begins;
            times = v.times;
            begins_ms = v.begins_ms;
            ascending = v.ascending;
            numbered = v.numbered;
            not_empty = v.not_empty;
            covered = v.covered;
            short = ground arith;
          },
          λ h. absurd (ground arith),
        )
]

-- With no more segments than the margin the start position is the start of the list.
start_of_short :
    (segments : List Segment) (total : ℤ)
    → length segments ≤ live_edge_margin_segments
    → compute_live_edge_start_position segments total live_edge_margin_segments
      ≡ start segments total
start_of_short segments total h =
    start_position-trailing segments total live_edge_margin_segments
    ∙ ap (λ n. start (drop n segments) total) none_over
  where
    none_over : length segments - min live_edge_margin_segments (length segments) ≡ 0
    none_over = omega arith

-- Opening keeps the invariant, leaves at most the margin's three segments, and starts at the first
-- of them; if there were more than three, that is byte 0.
pub start_at_live_edge-IsValid :
    (s : Stream)
    → IsValid s
    → let t = start_at_live_edge s in
      IsValid t
      × (length (t.segments) ≤ live_edge_margin_segments)
      × (t.position ≡ start (t.segments) (t.total_bytes))
      × (live_edge_margin_segments < length (s.segments) → t.position ≡ pos 0)
unfolding start_at_live_edge
start_at_live_edge-IsValid s v =
    let (k, at_zero) = trim-IsTrimmed s v in
    let e = start_of_short _ _ (k.short) in
    (
      record {
        chain = k.chain;
        begins = k.begins;
        times = k.times;
        begins_ms = k.begins_ms;
        ascending = k.ascending;
        numbered = k.numbered;
        not_empty = k.not_empty;
        covered = k.covered;
        placed = rw e (k.begins);
        within = rw e (start-le _ _ (k.chain));
      },
      k.short,
      e,
      λ more. e ∙ at_zero more,
    )
