-- ===== src/Examples/Lines.antt =====
-- Examples of cli/internal/tmux/control_mode_parser.go.
use shellman.Base.{
  ℕ, ◌<◌, ◌≡◌, refl, Bool, false, ◌||◌, List, [], ◌∷◌, ◌++◌, some, arith, ltb, ◌==◌, Text, codes,
  All,
}
use shellman.Base.{has_prefix, IsWord, is_space}
use shellman.Control.{parse_control_output_line}
use shellman.Control.Escapes.{escape}
use shellman.Control.Lines.{parse_control_output_line-output, parse_control_output_line-extended}

-- tmux escapes the backslash and what is below the space.
abbrev below_space : ℕ → Bool
below_space c = (c == 92) || ltb c 32

abbrev bytes : List ℕ
bytes = 104 ∷ 105 ∷ 92 ∷ 13 ∷ 10 ∷ []

abbrev pane : Text
pane = codes "%12"

abbrev age : Text
age = codes "34"

pane-IsWord : IsWord pane
unfolding is_space
pane-IsWord = ((λ e. cc), (refl, (refl, (refl, tt))))

age-IsWord : IsWord age
unfolding is_space
age-IsWord = ((λ e. cc), (refl, (refl, tt)))

bytes_bound : All (λ c. c < 256) bytes
bytes_bound = (omega arith, (omega arith, (omega arith, (omega arith, (omega arith, tt)))))

no_colon : has_prefix (codes ":") age ≡ false
unfolding has_prefix
no_colon = refl

escaped : escape below_space (13 ∷ []) ≡ codes "\\015"
unfolding escape
escaped = refl

parse_control_output_line-output_example :
    parse_control_output_line (codes "%output " ++ (pane ++ 32 ∷ escape below_space bytes))
    ≡ some (record { pane_id = pane; output = bytes })
parse_control_output_line-output_example =
    parse_control_output_line-output pane below_space bytes pane-IsWord refl bytes_bound

parse_control_output_line-extended_example :
    parse_control_output_line
      (codes "%extended-output " ++ (pane ++ 32 ∷ (age ++ 32 ∷ 58 ∷ 32 ∷ escape below_space bytes)))
    ≡ some (record { pane_id = pane; output = bytes })
parse_control_output_line-extended_example =
    parse_control_output_line-extended pane age below_space bytes pane-IsWord age-IsWord no_colon
      refl bytes_bound
