-- ===== src/Examples/Streams.antt =====
-- Examples of cli/cmd/shellman/stream_pump.go and cli/internal/streamdiff/diff.go.
use shellman.Base.{
  ℕ, ◌≡◌, refl, true, if◌then◌else◌, List, [], ◌∷◌, ◌++◌, none, some, Text, codes, text_eq, All,
}
use shellman.Target.{ActiveTarget, selects}
use shellman.Target as T
use shellman.Stream.{
  chunk_term_data, chunk_data, repaint, chunk_loop, chunk_size, shrink, max_term_frame_data_bytes,
}
use shellman.Stream.Utf8.{valid_string}
use shellman.Stream.Chunks.{Chunked, chunk_term_data-Chunked}
use shellman.Stream.Runes.{chunk_term_data-valid}
use shellman.Stream.Pump.{
  captured, TickInput, PumpState, initial_state, tick, switch_to, of_history, send_reset, follow,
  clear_pending, send_delta,
}
use shellman.Stream.Pump.View.{Terminal}
use shellman.Stream.Pump.Sync.{IsClean, Round, run, run_in_step}

-- A terminal that shows the last byte; a cleared one shows the last byte of the sequence that
-- clears it.
last_byte : ℕ → List ℕ → ℕ
last_byte s [] = s
last_byte s (c ∷ cs) = last_byte c cs

last_byte-append : (s : ℕ) (x y : List ℕ) → last_byte (last_byte s x) y ≡ last_byte s (x ++ y)
unfolding last_byte
last_byte-append s [] y = refl
last_byte-append s (c ∷ x) y = last_byte-append c x y

last_byte-repaint : (s : ℕ) (x : List ℕ) → last_byte s (repaint ++ x) ≡ last_byte 74 x
unfolding last_byte
last_byte-repaint s x = refl

last_byte-nil : (s : ℕ) → last_byte s [] ≡ s
unfolding last_byte
last_byte-nil s = refl

-- A coding that replaces a text with a fault.
replaced : List ℕ → List ℕ
replaced x = if valid_string x then x else 0xef ∷ 0xbf ∷ 0xbd ∷ []

replaced-valid : (x : List ℕ) → valid_string x ≡ true → replaced x ≡ x
unfolding replaced
replaced-valid x v = rw v refl

abbrev terminal : Terminal
terminal = record {
  Screen = ℕ;
  blank = 74;
  feed = last_byte;
  feed_append = last_byte-append;
  feed_repaint = last_byte-repaint;
  feed_nil = last_byte-nil;
  coded = replaced;
  coded_valid = replaced-valid;
}

abbrev pane : Text
pane = codes "e2e:0.0"

abbrev capture : TickInput
capture = record {
  history = captured (codes "ab");
  pane = captured (codes "abc");
  cursor = some (1, 0);
  now = 10;
  later = 11;
  accepts = none;
}

abbrev rounds : List Round
rounds =
    record { calls = selects pane ∷ []; input = capture }
    ∷ record { calls = []; input = capture }
    ∷ []

abbrev dark : Text → ℕ
dark _ = 0

abbrev idle : ActiveTarget
idle = record { target = []; version = 0 }

abbrev after_rounds : PumpState × (Text → ℕ)
after_rounds = run terminal initial_state idle dark rounds

followed : after_rounds.0.last_target ≡ pane
unfolding run tick T.run T.step text_eq initial_state switch_to of_history send_reset follow
    clear_pending send_delta
followed = refl

clean : All IsClean rounds
unfolding valid_string
clean = (
  record { sends = refl; history = refl; pane = refl },
  (record { sends = refl; history = refl; pane = refl }, tt),
)

run_in_step_example :
    after_rounds.1 after_rounds.0.last_target ≡ last_byte 74 after_rounds.0.last_snapshot
run_in_step_example = run_in_step terminal idle dark rounds clean (rw followed (λ e. cc))

chunk_term_data-Chunked_example :
    Chunked max_term_frame_data_bytes
      (codes "reset")
      (codes "abc")
      (chunk_term_data (codes "reset") (codes "abc"))
chunk_term_data-Chunked_example = chunk_term_data-Chunked (codes "reset") (codes "abc")

-- The euro sign and a letter.
abbrev euro : List ℕ
euro = 226 ∷ 130 ∷ 172 ∷ 97 ∷ []

euro_valid : valid_string euro ≡ true
unfolding valid_string
euro_valid = refl

chunk_term_data-valid_example :
    All (λ f. valid_string f.payload ≡ true) (chunk_term_data (codes "append") euro)
chunk_term_data-valid_example = chunk_term_data-valid (codes "append") euro euro_valid

-- Two frames of the euro sign twice, at a bound of four bytes.
cut_between :
    chunk_data 4 (codes "reset") (226 ∷ 130 ∷ 172 ∷ 226 ∷ 130 ∷ 172 ∷ [])
    ≡ record { mode = codes "reset"; payload = 226 ∷ 130 ∷ 172 ∷ [] }
      ∷ record { mode = codes "append"; payload = 226 ∷ 130 ∷ 172 ∷ [] }
      ∷ []
unfolding chunk_data chunk_loop chunk_size shrink valid_string
cut_between = refl
