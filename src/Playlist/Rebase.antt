-- ===== src/Playlist/Rebase.antt =====
-- The address that a segment is fetched from (`RebaseRecordingSegmentUrl` of
-- src/M3u8SegmentParser.cpp).
use pvr_dispatcharr_unoffici.Prelude.{
  ℕ, ◌≡◌, refl, false, [], ◌∷◌, ◌++◌, some, Bytes, codes, All, starts_with, from_char, ◌==◌,
  if◌then◌else◌,
}
use pvr_dispatcharr_unoffici.Playlist.{strip_slashes, rebase_recording_segment_url}

abbrev pub NoSlash : Bytes → Type 0
NoSlash = All (λ c. (c == b'/') ≡ false)

from_char-host :
    (host path : Bytes) → NoSlash host → from_char b'/' (host ++ b'/' ∷ path) ≡ some (b'/' ∷ path)
from_char-host [] path h = refl
from_char-host (c ∷ host) path (h, all) = rw h (from_char-host host path all)

-- Of an absolute URL, with a base configured: where its path begins with the prefix, the URL is the base
-- without the slashes at its end, then that path, whatever scheme and host the server named; where it
-- does not, the URL stays as it was.
pub rebase_recording_segment_url_lem :
    (host path : Bytes) (b : ℕ) (base prefix : Bytes)
    → NoSlash host
    → let rebased = λ (scheme : Bytes).
      if starts_with prefix (b'/' ∷ path)
      then strip_slashes (b ∷ base) ++ b'/' ∷ path
      else scheme ++ host ++ b'/' ∷ path in
      (rebase_recording_segment_url (codes "http://" ++ host ++ b'/' ∷ path) (b ∷ base) prefix
        ≡ rebased (codes "http://"))
      × (rebase_recording_segment_url (codes "https://" ++ host ++ b'/' ∷ path) (b ∷ base) prefix
          ≡ rebased (codes "https://"))
unfolding rebase_recording_segment_url
rebase_recording_segment_url_lem host path b base prefix h =
    rw (from_char-host host path h) (refl, refl)
