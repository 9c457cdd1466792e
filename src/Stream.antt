-- ===== src/Stream.antt =====
-- cli/cmd/shellman/stream_pump.go and cli/internal/streamdiff/diff.go: the terminal frames that are
-- sent to a client. Snapshots and frame data are lists of bytes; a cursor coordinate is a natural
-- number.
use shellman.Base.{
  ℕ, zero, suc, ◌+◌, ◌*◌, Bool, not, List, [], ◌∷◌, ◌++◌, ltb, leb, ◌==◌, if◌then◌else◌, Text,
  codes, is_empty, has_prefix, length, take, drop,
}
use Utf8.{valid_string}
pub mod Utf8
pub mod Chunks
pub mod Runes
pub mod Pump

pub record Delta : Type 0 where
  pub mode : Text
  pub payload : List ℕ
  pub reason : Text

-- "\x1b[0m\x1b[H\x1b[2J".
abbrev pub repaint : List ℕ
repaint = 27 ∷ 91 ∷ 48 ∷ 109 ∷ 27 ∷ 91 ∷ 72 ∷ 27 ∷ 91 ∷ 50 ∷ 74 ∷ []

unfoldable pub decide_delta : List ℕ → List ℕ → Bool → Delta
decide_delta prev curr snapshot_changed =
    if not snapshot_changed
    then record { mode = codes "append"; payload = []; reason = codes "cursor_only" }
    else if has_prefix prev curr
    then record {
      mode = codes "append";
      payload = drop (length prev) curr;
      reason = codes "prefix_append";
    }
    else record { mode = codes "append"; payload = repaint ++ curr; reason = codes "ansi_repaint" }

pub record TermFrame : Type 0 where
  pub mode : Text
  pub payload : List ℕ

abbrev pub max_term_frame_data_bytes : ℕ
max_term_frame_data_bytes = 24 * 1024

-- `for size > 0 && !utf8.ValidString(rest[:size]) { size-- }`.
unfoldable pub shrink : ℕ → List ℕ → ℕ
shrink zero rest = 0
shrink (suc n) rest =
    let smaller = shrink n rest in if valid_string (take (suc n) rest) then suc n else smaller

-- The size of the next frame.
unfoldable pub chunk_size : ℕ → List ℕ → ℕ
chunk_size limit rest =
    let size = shrink (if ltb (length rest) limit then length rest else limit) rest in
    if size == 0 then 1 else size

-- The loop of chunkTermData; each round takes a byte at least, so the bytes left are fuel enough.
unfoldable pub chunk_loop : ℕ → ℕ → Text → List ℕ → List TermFrame
chunk_loop limit zero next_mode rest = []
chunk_loop limit (suc fuel) next_mode rest =
    let size = chunk_size limit rest in
    let later = chunk_loop limit fuel (codes "append") (drop size rest) in
    if is_empty rest then [] else record { mode = next_mode; payload = take size rest } ∷ later

-- chunkTermData, with the bound on a frame's data as an argument.
unfoldable pub chunk_data : ℕ → Text → List ℕ → List TermFrame
chunk_data limit mode payload =
    if leb (length payload) limit
    then record { mode = mode; payload = payload } ∷ []
    else chunk_loop limit (length payload) mode payload

unfoldable pub chunk_term_data : Text → List ℕ → List TermFrame
unfolding chunk_data
chunk_term_data = chunk_data max_term_frame_data_bytes
