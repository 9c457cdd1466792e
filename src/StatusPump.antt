-- ===== src/StatusPump.antt =====
-- cli/cmd/shellman/status_pump.go: the status of all panes is sent in messages of a bounded size.
-- The length of the JSON of a message is a parameter; `none` is an error of the encoder.
use shellman.Base.{
  ℕ, zero, suc, Bool, true, false, List, [], ◌∷◌, ◌++◌, Option, none, some, leb, ◌*◌, ◌==◌,
  if◌then◌else◌, length,
}
use shellman.Registry.{SessionStatusItem}
pub mod Splitting

abbrev pub tmux_status_max_message_bytes : ℕ
tmux_status_max_message_bytes = 24 * 1024

-- `append(chunks, …)` in front of the chunks that follow.
unfoldable pub then_chunks :
    List SessionStatusItem
    → Option (List (List SessionStatusItem))
    → Option (List (List SessionStatusItem))
then_chunks chunk none = none
then_chunks chunk (some chunks) = some (chunk ∷ chunks)

-- `if len(current) > 0 { chunks = append(chunks, current) }`.
unfoldable pub last_chunk : List SessionStatusItem → List (List SessionStatusItem)
last_chunk [] = []
last_chunk (x ∷ xs) = (x ∷ xs) ∷ []

module _ (probe_size : List SessionStatusItem → Option ℕ) (max_bytes : ℕ) where
  fits_size : Option ℕ → Option Bool
  fits_size none = none
  fits_size (some n) = some (leb n max_bytes)

  unfoldable pub tmux_status_chunk_fits : List SessionStatusItem → Option Bool
  unfolding fits_size
  tmux_status_chunk_fits items = fits_size (probe_size items)

  -- The body of the loop, after the test whether the candidate fits; `longer` is the rest of the
  -- loop with the candidate, `fresh` with nothing, and `begun` with the item alone.
  unfoldable pub place :
      Option Bool
      → List SessionStatusItem
      → SessionStatusItem
      → Option (List (List SessionStatusItem))
      → Option (List (List SessionStatusItem))
      → Option (List (List SessionStatusItem))
      → Option (List (List SessionStatusItem))
  unfolding then_chunks
  place none current item longer fresh begun = none
  place (some true) current item longer fresh begun = longer
  place (some false) [] item longer fresh begun = then_chunks (item ∷ []) fresh
  place (some false) (x ∷ xs) item longer fresh begun = then_chunks (x ∷ xs) begun

  unfoldable pub split_loop :
      List SessionStatusItem → List SessionStatusItem → Option (List (List SessionStatusItem))
  unfolding tmux_status_chunk_fits place last_chunk
  split_loop current [] = some (last_chunk current)
  split_loop current (item ∷ items) =
      place (tmux_status_chunk_fits (current ++ item ∷ [])) current item
        (split_loop (current ++ item ∷ []) items) (split_loop [] items)
        (split_loop (item ∷ []) items)

  unfoldable pub split_tmux_status_items :
      List SessionStatusItem → Option (List (List SessionStatusItem))
  unfolding split_loop
  split_tmux_status_items [] = some ([] ∷ [])
  split_tmux_status_items (item ∷ items) = split_loop [] (item ∷ items)

-- A `tmux.status` message, whose id is made of the time and the index.
pub record StatusMessage : Type 0 where
  pub base_id : ℕ
  pub items : List SessionStatusItem
  pub chunk_index : ℕ
  pub chunk_total : ℕ

unfoldable pub number_chunks : ℕ → ℕ → ℕ → List (List SessionStatusItem) → List StatusMessage
number_chunks base_id total index [] = []
number_chunks base_id total index (chunk ∷ chunks) =
    record { base_id = base_id; items = chunk; chunk_index = index; chunk_total = total }
    ∷ number_chunks base_id total (suc index) chunks

messages_of : ℕ → Option (List (List SessionStatusItem)) → Option (List StatusMessage)
unfolding number_chunks
messages_of base_id none = none
messages_of base_id (some chunks) = some (number_chunks base_id (length chunks) 0 chunks)

unfoldable pub build_tmux_status_messages :
    (List SessionStatusItem → Option ℕ)
    → List SessionStatusItem
    → ℕ
    → ℕ
    → Option (List StatusMessage)
unfolding messages_of split_tmux_status_items
build_tmux_status_messages probe_size items max_bytes now = messages_of now (
    split_tmux_status_items probe_size
      (if max_bytes == 0 then tmux_status_max_message_bytes else max_bytes) items)
