-- ===== src/Control.antt =====
-- cli/internal/tmux/control_mode_parser.go: the output events of tmux's control mode. A line and
-- the data of an event are lists of bytes.
use shellman.Base.{
  ℕ, ◌+◌, ◌-◌, ◌*◌, ◌%◌, Bool, false, not, ◌&&◌, ◌||◌, List, [], ◌∷◌, Option, none, some, leb, ◌==◌,
  if◌then◌else◌, Text, codes, is_empty, has_prefix, trim_space, fields, drop,
}
pub mod Escapes
pub mod Lines

pub record ControlOutputEvent : Type 0 where
  pub pane_id : Text
  pub output : List ℕ

unfoldable pub is_octal : ℕ → Bool
is_octal b = leb b'0' b && leb b b'7'

-- The byte that three octal digits stand for, in uint8 arithmetic.
unfoldable pub octal_value : ℕ → ℕ → ℕ → ℕ
octal_value a b c = ((a - b'0') * 64 + (b - b'0') * 8 + (c - b'0')) % 256

-- The loop of decodeControlEscaped.
unfoldable pub decode_loop : List ℕ → List ℕ
unfolding is_octal octal_value
decode_loop [] = []
decode_loop (a ∷ b ∷ c ∷ d ∷ rest) =
    let escaped = octal_value b c d ∷ decode_loop rest in
    let plain = a ∷ decode_loop (b ∷ c ∷ d ∷ rest) in
    if a == 92 && is_octal b && is_octal c && is_octal d then escaped else plain
decode_loop (a ∷ rest) = a ∷ decode_loop rest

-- `strings.IndexByte(raw, '\\') >= 0`.
unfoldable pub has_backslash : List ℕ → Bool
has_backslash [] = false
has_backslash (c ∷ s) = (c == 92) || has_backslash s

unfoldable pub decode_control_escaped : List ℕ → List ℕ
decode_control_escaped raw =
    if is_empty raw then [] else (if not (has_backslash raw) then raw else decode_loop raw)

-- The text before the first occurrence of a separator, and the text behind it:
-- `strings.SplitN(s, sep, 2)` with two parts, or `strings.Index` with the two slices.
unfoldable pub cut : ℕ → Text → Text → Option (Text × Text)
unfolding has_prefix
cut skip sep [] = none
cut skip sep (c ∷ s) =
    let later = elim (cut skip sep s) as (λ _. Option (Text × Text)) [
      | none ↦ none
      | some (before, behind) ↦ some (c ∷ before, behind)
    ] in
    if has_prefix sep (c ∷ s) then some ([], drop skip (c ∷ s)) else later

unfoldable pub event_of : Text → List ℕ → Option ControlOutputEvent
event_of pane_id raw =
    if is_empty pane_id
    then none
    else some (record { pane_id = pane_id; output = decode_control_escaped raw })

unfoldable pub output_parts : Option (Text × Text) → Option ControlOutputEvent
output_parts none = none
output_parts (some (first, raw)) = event_of (trim_space first) raw

unfoldable pub parse_output : Text → Option ControlOutputEvent
parse_output rest = output_parts (cut 1 (codes " ") rest)

-- The fields of the head of an extended line; the first is the pane.
unfoldable pub fields_event : List Text → List ℕ → Option ControlOutputEvent
fields_event [] raw = none
fields_event (x ∷ _) raw = event_of (trim_space x) raw

unfoldable pub extended_parts : Option (Text × Text) → Option ControlOutputEvent
extended_parts none = none
extended_parts (some (before, raw)) =
    if is_empty (trim_space before) then none else fields_event (fields (trim_space before)) raw

unfoldable pub parse_extended_output : Text → Option ControlOutputEvent
parse_extended_output rest = extended_parts (cut 3 (codes " : ") rest)

unfoldable pub parse_control_output_line : Text → Option ControlOutputEvent
unfolding has_prefix
parse_control_output_line line =
    if has_prefix (codes "%output ") line
    then parse_output (drop 8 line)
    else (if has_prefix (codes "%extended-output ") line
        then parse_extended_output (drop 17 line)
        else none)
