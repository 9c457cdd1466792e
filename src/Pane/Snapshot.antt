-- ===== src/Pane/Snapshot.antt =====
-- appendRealtimeSnapshot: the snapshot that grows with the output of a pane is cut to its last
-- bytes. Snapshots are lists of bytes; normalizeTermSnapshot is the identity in the code.
use shellman.Base.{
  ℕ, ◌-◌, ◌*◌, ◌≤◌, ◌<◌, ◌≡◌, sym, ap, ◌∙◌, List, [], ◌∷◌, ◌++◌, append_assoc, append-nil, arith,
  ltb, leb, if◌then◌else◌, is_empty, length, drop, keep_last, keep_last_all, keep_last-append,
  length-keep_last, dec_le, dec_lt, keep_last_skip, keep_last-split,
}

abbrev pub realtime_snapshot_max_len : ℕ
realtime_snapshot_max_len = 512 * 1024

-- `prevPart`, when the chunk is within the limit.
unfoldable pub prev_part : List ℕ → List ℕ → ℕ → List ℕ
prev_part prev chunk limit =
    if ltb (limit - length chunk) (length prev)
    then drop (length prev - (limit - length chunk)) prev
    else prev

unfoldable pub append_realtime_snapshot : List ℕ → List ℕ → ℕ → List ℕ
unfolding prev_part
append_realtime_snapshot prev chunk limit =
    if is_empty chunk
    then prev
    else if ltb 0 limit
    then (if leb limit (length chunk)
        then drop (length chunk - limit) chunk
        else prev_part prev chunk limit ++ chunk)
    else prev ++ chunk

-- The calls of realtimeLoop, one for each chunk of output; an empty chunk is skipped.
unfoldable pub apply_realtime_output : List ℕ → List ℕ → List ℕ
unfolding append_realtime_snapshot
apply_realtime_output last_snap payload =
    if is_empty payload
    then last_snap
    else append_realtime_snapshot last_snap payload realtime_snapshot_max_len

unfoldable pub append_chunks : List ℕ → List (List ℕ) → ℕ → List ℕ
append_chunks prev [] limit = prev
append_chunks prev (chunk ∷ chunks) limit =
    append_chunks (append_realtime_snapshot prev chunk limit) chunks limit

-- What the chunks are, joined.
unfoldable pub output_of : List (List ℕ) → List ℕ
output_of [] = []
output_of (chunk ∷ chunks) = chunk ++ output_of chunks

prev_part-keep_last :
    (prev chunk : List ℕ) (limit : ℕ)
    → prev_part prev chunk limit ≡ keep_last (limit - length chunk) prev
unfolding prev_part
prev_part-keep_last prev chunk limit = elim (dec_le (length prev) (limit - length chunk)) [
  | yes short ↦ rw (keep_last_all (limit - length chunk) prev short) (ground arith)
  | no long ↦ unfold keep_last in ground arith
]

append_realtime_snapshot-keep_last :
    (prev chunk : List ℕ) (limit : ℕ)
    → 0 < limit
    → length prev ≤ limit
    → append_realtime_snapshot prev chunk limit ≡ keep_last limit (prev ++ chunk)
unfolding append_realtime_snapshot
append_realtime_snapshot-keep_last prev [] limit p h =
    sym (keep_last_all limit prev h) ∙ ap (keep_last limit) (sym (append-nil prev))
append_realtime_snapshot-keep_last prev (c ∷ chunk) limit p h =
    elim (dec_lt (length (c ∷ chunk)) limit) [
      | yes fits ↦ ground (
        arith,
        keep_last-split limit prev (c ∷ chunk) (omega arith),
        prev_part-keep_last prev (c ∷ chunk) limit,
      )
      | no over ↦
          rw (keep_last_skip limit prev (c ∷ chunk) (omega arith))
            (unfold keep_last in ground arith)
    ]

-- However the output of a pane is cut into chunks, the snapshot after them is the same: the last
-- `limit` bytes of the first snapshot and all of the output, for a limit that is not 0 and a first
-- snapshot within it.
pub append_chunks-keep_last :
    (prev : List ℕ) (chunks : List (List ℕ)) (limit : ℕ)
    → 0 < limit
    → length prev ≤ limit
    → append_chunks prev chunks limit ≡ keep_last limit (prev ++ output_of chunks)
unfolding append_chunks output_of
append_chunks-keep_last prev [] limit p h =
    sym (keep_last_all limit prev h) ∙ ap (keep_last limit) (sym (append-nil prev))
append_chunks-keep_last prev (chunk ∷ chunks) limit p h =
    rw (append_realtime_snapshot-keep_last prev chunk limit p h) (
      append_chunks-keep_last (keep_last limit (prev ++ chunk)) chunks limit p
        (length-keep_last limit (prev ++ chunk))
      ∙ keep_last-append limit (prev ++ chunk) (output_of chunks)
      ∙ ap (keep_last limit) (append_assoc prev chunk (output_of chunks)))
