-- ===== src/Activity/Suppression.antt =====
-- cli/cmd/shellman/autoprogress_suppression.go: a snapshot that the program itself caused must not
-- count as progress. An entry is good for one consumption within its time to live.
pub mod Once
use shellman.Base.{
  ℕ, ◌+◌, Bool, true, false, not, ◌||◌, Option, none, some, ltb, ◌==◌, if◌then◌else◌, Text, text_eq,
  is_empty, trim_space, Map, empty_map, insert, delete, retain,
}

pub record Entry : Type 0 where
  pub snapshot_hash : Text
  pub expires_at : ℕ

pub record Store : Type 0 where
  pub ttl : ℕ
  pub entries : Map Entry

abbrev pub five_seconds : ℕ
five_seconds = 5_000_000_000

unfoldable pub new_store : ℕ → Store
new_store ttl =
    if ttl == 0
    then record { ttl = five_seconds; entries = empty_map }
    else (record { ttl = ttl; entries = empty_map })

-- An entry with a zero time, or with one after now, stays.
unfoldable pub is_live : ℕ → Entry → Bool
is_live now entry = (entry.expires_at == 0) || ltb now entry.expires_at

unfoldable pub evict_expired : Store → ℕ → Store
unfolding is_live
evict_expired s now = record s { entries = retain (λ _ entry. is_live now entry) s.entries }

unfoldable pub register : Store → Text → Text → ℕ → Store
unfolding evict_expired
register s pane_target snapshot_hash now =
    let live = evict_expired s now in
    record live {
      entries =
          insert pane_target (record { snapshot_hash = snapshot_hash; expires_at = now + live.ttl })
            live.entries;
    }

consume_entry : Store → Text → Text → Option Entry → Store × Bool
consume_entry s pane_target snapshot_hash none = (s, false)
consume_entry s pane_target snapshot_hash (some entry) =
    if not (text_eq (trim_space entry.snapshot_hash) snapshot_hash)
    then (s, false)
    else (record s { entries = delete pane_target s.entries }, true)

unfoldable pub consume_if_match : Store → Text → Text → ℕ → Store × Bool
unfolding evict_expired consume_entry
consume_if_match s pane_target snapshot_hash now =
    let live = evict_expired s now in
    consume_entry live pane_target snapshot_hash (live.entries pane_target)

unfoldable pub reset : Store → Store
reset s = record s { entries = empty_map }

unfoldable pub register_auto_progress_suppression : Store → Text → Text → Bool → ℕ → Store
unfolding register
register_auto_progress_suppression s pane_target snapshot_hash hash_changed now =
    if not hash_changed
    then s
    else (if is_empty (trim_space pane_target) || is_empty (trim_space snapshot_hash)
        then s
        else register s (trim_space pane_target) (trim_space snapshot_hash) now)

unfoldable pub consume_auto_progress_suppression : Store → Text → Text → ℕ → Store × Bool
unfolding consume_if_match
consume_auto_progress_suppression s pane_target snapshot_hash now =
    if is_empty (trim_space pane_target) || is_empty (trim_space snapshot_hash)
    then (s, false)
    else consume_if_match s (trim_space pane_target) (trim_space snapshot_hash) now

-- The calls of the pane actors and of the local API.
pub data Call : Type 0 where
  registers : Text → Text → Bool → ℕ → Call
  consumes : Text → Text → ℕ → Call

unfoldable pub step : Store → Call → Store × Bool
unfolding register_auto_progress_suppression consume_auto_progress_suppression
step s (registers p h changed now) = (register_auto_progress_suppression s p h changed now, false)
step s (consumes p h now) = consume_auto_progress_suppression s p h now
