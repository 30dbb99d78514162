-- ===== src/Padding.antt =====
-- src/PaddingPush.h: the recording padding that the user edits and that is pushed to the server. The
-- fields of `PendingPaddingPush` that exist once for each side are gathered in a `Side`; `isPre` picks
-- the side. A sequence number is a natural number.
pub mod Pushes
pub mod Sides
pub mod Laws
mod Examples
use pvr_dispatcharr_unoffici.Prelude.{
  ℕ, suc, ◌-◌, ◌==◌, leb, ltb, Bool, true, false, not, ◌&&◌, ◌||◌, Option, none, some,
  if◌then◌else◌,
}
use pvr_dispatcharr_unoffici.Prelude.Int.{ℤ}

pub record PaddingEdit : Type 0 where
  pub value : ℤ
  pub seq : ℕ

-- One side: the parked value (`pre`, `post`), the edit that it came from, and the newest edit made.
pub record Side : Type 0 where
  pub parked : Option ℤ
  pub parked_seq : ℕ
  pub newest : Option PaddingEdit

pub record PendingPaddingPush : Type 0 where
  pub pre : Side
  pub post : Side
  pub next_seq : ℕ
  pub retries : ℕ
  pub in_flight_edits : ℕ

abbrev pub side_of : Bool → PendingPaddingPush → Side
side_of true s = s.pre
side_of false s = s.post

abbrev pub with_side : Bool → Side → PendingPaddingPush → PendingPaddingPush
with_side true x s = record s { pre = x }
with_side false x s = record s { post = x }

abbrev pub is_some : Option ℤ → Bool
is_some none = false
is_some (some v) = true

abbrev pub has_pending : PendingPaddingPush → Bool
has_pending s = is_some ((s.pre).parked) || is_some ((s.post).parked)

unfoldable pub begin_padding_edit : PendingPaddingPush → Bool → ℤ → ℕ × PendingPaddingPush
begin_padding_edit s is_pre value =
    let seq = suc (s.next_seq) in
    let newest = some (record { value = value; seq = seq }) in
    (
      seq,
      with_side is_pre (record (side_of is_pre s) { newest = newest })
          (record s { next_seq = seq; in_flight_edits = suc (s.in_flight_edits) }),
    )

-- `ParkNewestPaddingEdit`: what it makes of the side, and whether it starts the retries again.
unfoldable pub park_newest : Side → Side
park_newest x = elim (x.newest) [
  | none ↦ x
  | some n ↦ record x { parked = some (n.value); parked_seq = n.seq }
]

abbrev pub parks_anew : Side → Bool
parks_anew x = elim (x.newest) [
  | none ↦ false
  | some n ↦ not (is_some (x.parked)) || not (x.parked_seq == n.seq)
]

abbrev pub restart_if : Bool → PendingPaddingPush → PendingPaddingPush
restart_if anew s = record s { retries = if anew then 0 else s.retries }

-- The newest edit, once a result of the edit `e` has come.
abbrev pub newest_with : PaddingEdit → Option PaddingEdit → PaddingEdit
newest_with e none = e
newest_with e (some n) = if ltb (n.seq) (e.seq) then e else n

abbrev pub is_newest : PaddingEdit → Side → Bool
is_newest e x = e.seq == (newest_with e (x.newest)).seq

abbrev pub clear_up_to : ℕ → Side → Side
clear_up_to seq x =
    if is_some (x.parked) && leb (x.parked_seq) seq then record x { parked = none } else x

-- What `ApplyDirectPaddingPushResult` makes of the side.
unfoldable pub apply_result : PaddingEdit → Bool → Side → Side
apply_result e ok x =
    let y = record x { newest = some (newest_with e (x.newest)) } in
    if ok && is_newest e x then clear_up_to (e.seq) y else park_newest y

unfoldable pub apply_direct_padding_push_result :
    PendingPaddingPush → Bool → PaddingEdit → Bool → PendingPaddingPush
apply_direct_padding_push_result s is_pre e ok =
    let x = side_of is_pre s in
    let y = record x { newest = some (newest_with e (x.newest)) } in
    restart_if (not (ok && is_newest e x) && parks_anew y) (
      with_side is_pre (apply_result e ok x) (record s { in_flight_edits = s.in_flight_edits - 1 }))

-- What a retry sends.
pub record Sent : Type 0 where
  pub pre : Option PaddingEdit
  pub post : Option PaddingEdit

abbrev pub parked_edit : Side → Option PaddingEdit
parked_edit x = elim (x.parked) [
  | none ↦ none
  | some v ↦ some (record { value = v; seq = x.parked_seq })
]

unfoldable pub pending_padding_edits : PendingPaddingPush → Sent
pending_padding_edits s = record { pre = parked_edit (s.pre); post = parked_edit (s.post) }

unfoldable pub is_safe_to_sync_padding_from_server : PendingPaddingPush → ℕ → Bool
is_safe_to_sync_padding_from_server s next_seq_at_start =
    not (has_pending s) && (s.in_flight_edits == 0 && s.next_seq == next_seq_at_start)

pub data PaddingRetryOutcome : Type 0 where
  sent : PaddingRetryOutcome
  retry_later : PaddingRetryOutcome
  gave_up : PaddingRetryOutcome

abbrev pub sent_is_newest : PaddingEdit → Side → Bool
sent_is_newest e x = elim (x.newest) [ none ↦ true | some n ↦ n.seq == e.seq ]

abbrev pub clear_exactly : ℕ → Side → Side
clear_exactly seq x =
    if is_some (x.parked) && x.parked_seq == seq then record x { parked = none } else x

-- The lambda `settle`: what it makes of the side, and whether it parks the newest edit anew.
unfoldable pub settle_side : Option PaddingEdit → Bool → Side → Side
settle_side none succeeded x = x
settle_side (some e) succeeded x =
    if succeeded && sent_is_newest e x
    then clear_exactly (e.seq) x
    else if not (sent_is_newest e x)
    then park_newest x
    else x

abbrev pub settle_parks : Option PaddingEdit → Side → Bool
settle_parks none x = false
settle_parks (some e) x = not (sent_is_newest e x) && parks_anew x

abbrev pub settle : Bool → Option PaddingEdit → Bool → PendingPaddingPush → PendingPaddingPush
settle is_pre e succeeded s =
    restart_if (settle_parks e (side_of is_pre s))
      (with_side is_pre (settle_side e succeeded (side_of is_pre s)) s)

abbrev pub settle_both : Sent → Bool → PendingPaddingPush → PendingPaddingPush
settle_both sent_edits succeeded s =
    settle false (sent_edits.post) succeeded (settle true (sent_edits.pre) succeeded s)

abbrev pub forget_parked : PendingPaddingPush → PendingPaddingPush
forget_parked s = record s {
  pre = record s.pre { parked = none };
  post = record s.post { parked = none };
  retries = 0;
}

unfoldable pub apply_padding_retry_result :
    PendingPaddingPush → Sent → Bool → ℕ → PaddingRetryOutcome × PendingPaddingPush
apply_padding_retry_result s sent_edits ok max_retries =
    let settled = settle_both sent_edits ok s in
    let retries = suc (settled.retries) in
    if ok
    then (sent, record settled { retries = 0 })
    else if leb max_retries retries
    then (gave_up, forget_parked settled)
    else (retry_later, record settled { retries = retries })
