-- ===== src/Live/Reader/Others.antt =====
-- A whole read of the live stream, with what the program's calls do to the stream while the read has
-- released the state lock (`m_liveStateMutex` of src/DispatcharrClient.h).
use pvr_dispatcharr_unoffici.Prelude.{ℕ, ◌≡◌, sym, ap, subst, Bool, true, false, arith, List}
use pvr_dispatcharr_unoffici.Prelude.Int.{ℤ, pos, ◌≤ℤ◌}
use mathlib.Core.Bool.{false≢true}
use pvr_dispatcharr_unoffici.Json.{JsonLib}
use pvr_dispatcharr_unoffici.Position.{Whence}
use pvr_dispatcharr_unoffici.Live.{Stream}
use pvr_dispatcharr_unoffici.Live.Calls.{finish_refresh, start_at_live_edge, seek_locked}
use pvr_dispatcharr_unoffici.Live.Invariant.{IsValid, fatal-IsValid}
use pvr_dispatcharr_unoffici.Live.Refresh.{finish_refresh-IsValid}
use pvr_dispatcharr_unoffici.Live.Seek.{seek_locked-Lands}
use pvr_dispatcharr_unoffici.Live.Open.{start_at_live_edge-IsValid}
use pvr_dispatcharr_unoffici.Live.Session.{fresh_stream}
use pvr_dispatcharr_unoffici.Live.Session.Steps.{fresh-IsValid, refresh-grows, Moved-seek}
use pvr_dispatcharr_unoffici.Live.Reader.{Reader, Away, Env}
use pvr_dispatcharr_unoffici.Live.Reader.Pass.Once.{read_once}
use pvr_dispatcharr_unoffici.Live.Reader.FetchKeeps.{Keeps, Sound}
use pvr_dispatcharr_unoffici.Live.Reader.Keeps.{KeepsAll-Sound}

module _ (lib : JsonLib) where
  open lib use {Json}

  -- What any number of calls, the read's own refreshes among them, make of the stream `s` while the read
  -- is away, and whether it is still the same stream then.
  pub data Does (s : Stream) : Bool → Stream → Type 0 where
    nothing : Does s true s
    refreshes :
        {same : Bool} {t : Stream} (same_session : Bool) (result : Json) (manifest : List Json)
        → Does s same t
        → Does s same (finish_refresh lib t same_session result manifest).1
    seeks :
        {same : Bool} {t : Stream} (position : ℤ) (whence : Whence)
        → Does s same t
        → Does s same (seek_locked t position whence).1
    dies : {same : Bool} {t : Stream} → Does s same t → Does s same (record t { fatal = true })
    -- A close, or an open that has not returned.
    replaces :
        {same : Bool} {t : Stream} (open_ : Bool)
        → Does s same t
        → Does s false (fresh_stream open_)
    opens : {t : Stream} → Does s false t → Does s false (start_at_live_edge t)

  Does-keeps :
      {s t : Stream} {same : Bool}
      → Does s same t
      → IsValid s
      → IsValid t × (same ≡ true → s.total_bytes ≤ℤ t.total_bytes)
  Does-keeps nothing v = (v, λ e. omega arith)
  Does-keeps (refreshes {same} {t} same_session result manifest d) v =
      let (w, le) = Does-keeps d v in
      let g = (refresh-grows lib t same_session result manifest).1 in
      (
        (finish_refresh-IsValid lib t same_session result manifest w).0,
        λ e. let h = le e in omega arith,
      )
  Does-keeps {s} (seeks {same} {t} position whence d) v =
      let (w, le) = Does-keeps d v in
      let (u, moved) = Moved-seek t _ w (seek_locked-Lands t position whence w) in
      (
        u,
        λ e.
            subst (λ x. s.total_bytes ≤ℤ x) (sym (ap (λ (q : Stream). q.total_bytes) moved)) (le e),
      )
  Does-keeps (dies {same} {t} d) v = let (w, le) = Does-keeps d v in (fatal-IsValid t w, λ e. le e)
  Does-keeps (replaces open_ d) v = (fresh-IsValid open_, λ e. absurd (false≢true e))
  Does-keeps (opens {t} d) v =
      ((start_at_live_edge-IsValid t (Does-keeps d v).0).0, λ e. absurd (false≢true e))

  -- What happens while the lock is released is the work of the program's calls.
  abbrev pub IsCalls : Away → Type 0
  IsCalls a = (s : Stream) → Does s (a.same) (a.stream s)

  pub record IsProgram (env : Env) : Type 0 where
    pub heartbeat : IsCalls (env.heartbeat)
    pub refresh : (i : ℕ) → IsCalls ((env.rounds i).refresh)
    pub sleep : (i : ℕ) → IsCalls ((env.rounds i).sleep)
    pub curl_wait : IsCalls (env.curl_wait)
    pub away : IsCalls (env.away)
    pub failing : IsCalls ((env.failing).refresh)

  IsCalls-Keeps : (a : Away) → IsCalls a → Keeps a
  IsCalls-Keeps a h s v = Does-keeps (h s) v

  -- Where the stream is changed, while the read has released the lock, by any number of refreshes, seeks,
  -- closes and opens, the refreshes that the read itself asks for among them: a read of at most
  -- 2147483647 bytes keeps the stream's invariant, however its transfer, its wait or its failure goes,
  -- and answers at most the bytes that were asked for; below 0 it answers only -1, or the mark that asks
  -- for another pass.
  pub read_once-Sound :
      (env : Env) (size : ℤ) (r : Reader)
      → IsProgram env
      → pos 0 ≤ℤ size
      → size ≤ℤ pos 2147483647
      → IsValid (r.stream)
      → Sound size (read_once env size r)
  read_once-Sound env size r p some_size fits v =
      KeepsAll-Sound env size r
        (record {
          heartbeat = IsCalls-Keeps (env.heartbeat) (p.heartbeat);
          refresh = λ i. IsCalls-Keeps ((env.rounds i).refresh) (p.refresh i);
          sleep = λ i. IsCalls-Keeps ((env.rounds i).sleep) (p.sleep i);
          curl_wait = IsCalls-Keeps (env.curl_wait) (p.curl_wait);
          away = IsCalls-Keeps (env.away) (p.away);
          failing = IsCalls-Keeps ((env.failing).refresh) (p.failing);
        })
        some_size fits v
