-- ===== src/Examples/Hubs.antt =====
-- Examples of cli/cmd/shellman/runtime_control_mode_hub.go.
use shellman.Base.{
  ℕ, ◌≡◌, ◌≤◌, refl, List, [], ◌∷◌, ◌++◌, Text, codes, length, empty_map, text_eq, not, ◌&&◌,
  is_empty, mem, IsDistinct, insert, trim_space, Map,
}
use shellman.Stream.Utf8.{lead}
use shellman.Hub.{split_utf8_payload, consume_utf8_chunk, pending_of, rest_size}
use shellman.Hub.Topology.{is_there, removed_pane_targets}
use shellman.Hub.Splitting.{run_chunks, output_of, run_chunks-split_utf8_payload}
use shellman.Hub.Removing.{is_gone, removed_pane_targets-is_gone}

-- A rune of three bytes in two chunks, with the output of another pane in between.
abbrev calls : List (Text × List ℕ)
calls =
    (codes "e2e:0.0", 0xe2 ∷ 0x94 ∷ [])
    ∷ (codes "e2e:0.1", 65 ∷ [])
    ∷ (codes "e2e:0.0", 0x80 ∷ 65 ∷ 0xf0 ∷ [])
    ∷ []

run_chunks-split_utf8_payload_example :
    let r = run_chunks empty_map (codes "e2e:0.0") calls in
    (r ≡ split_utf8_payload (output_of (codes "e2e:0.0") calls))
    × (r.0 ++ r.1 ≡ output_of (codes "e2e:0.0") calls)
    × (length r.1 ≤ 3)
run_chunks-split_utf8_payload_example = run_chunks-split_utf8_payload (codes "e2e:0.0") calls

cut_rune : run_chunks empty_map (codes "e2e:0.0") calls ≡ (0xe2 ∷ 0x94 ∷ 0x80 ∷ 65 ∷ [], 0xf0 ∷ [])
unfolding run_chunks text_eq consume_utf8_chunk pending_of rest_size lead
cut_rune = refl

-- A byte that fits no rune goes on at once.
stray_byte :
    split_utf8_payload (0xff ∷ 0xe2 ∷ 65 ∷ 0xf0 ∷ 0x9f ∷ [])
    ≡ (0xff ∷ 0xe2 ∷ 65 ∷ [], 0xf0 ∷ 0x9f ∷ [])
unfolding split_utf8_payload rest_size lead
stray_byte = refl

-- The panes of a session, before and after one with two names is closed.
abbrev before : List (Text × Text)
before =
    (codes "%1", codes "e2e:0.0")
    ∷ (codes "%2", codes "e2e:0.1")
    ∷ (codes "%3", codes " e2e:0.1 ")
    ∷ []

abbrev after : Map Text
after = insert (codes "%1") (codes "e2e:0.0") empty_map

removed_pane_targets-is_gone_example :
    let removed = removed_pane_targets before after in
    IsDistinct removed
    × (mem (codes "e2e:0.1") removed
        ≡ (not (is_empty (codes "e2e:0.1")) && is_gone (codes "e2e:0.1") after before))
removed_pane_targets-is_gone_example = removed_pane_targets-is_gone before after (codes "e2e:0.1")

closed_pane : removed_pane_targets before after ≡ codes "e2e:0.1" ∷ []
unfolding removed_pane_targets insert text_eq mem trim_space is_there
closed_pane = refl
