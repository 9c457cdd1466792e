-- ===== src/Control/Lines.antt =====
-- ParseControlOutputLine reads back the lines that tmux writes.
use shellman.Base.{
  ℕ, ◌<◌, ◌≡◌, ◌≢◌, refl, sym, ap, subst, ◌∙◌, Bool, true, false, List, [], ◌∷◌, ◌++◌, some, arith,
  Text, codes, is_space, is_empty, has_prefix, trim_space, All, append_assoc, IsWord,
  trim_space-word, trim_space-words, fields-word,
}
use shellman.Control.{
  cut, event_of, output_parts, fields_event, extended_parts, parse_output, parse_extended_output,
  parse_control_output_line,
}
use shellman.Control.Escapes.{escape, decode_control_escaped-escape}

not_blank : (c : ℕ) → is_space c ≡ false → c ≢ 32
unfolding is_space
not_blank c h = λ e. cc (sym h ∙ ap is_space e)

cut-word :
    (w behind : Text)
    → All (λ c. is_space c ≡ false) w
    → cut 1 (codes " ") (w ++ 32 ∷ behind) ≡ some (w, behind)
unfolding cut
cut-word [] behind a = refl
cut-word (c ∷ w) behind a = ground (arith, cut-word w behind a.1, not_blank c)

event_of_word :
    (w : Text) (must : ℕ → Bool) (s : List ℕ)
    → w ≢ []
    → must 92 ≡ true
    → All (λ c. c < 256) s
    → event_of w (escape must s) ≡ some (record { pane_id = w; output = s })
unfolding event_of
event_of_word [] must s h m a = absurd (h refl)
event_of_word (c ∷ w) must s h m a = rw (decode_control_escaped-escape must s m a)

-- A line `%output PANE DATA`, with a word for the pane and its bytes escaped by tmux, is read back
-- as the pane and its bytes, whatever bytes tmux escapes beside the backslash.
pub parse_control_output_line-output :
    (pane : Text) (must : ℕ → Bool) (s : List ℕ)
    → IsWord pane
    → must 92 ≡ true
    → All (λ c. c < 256) s
    → parse_control_output_line (codes "%output " ++ (pane ++ 32 ∷ escape must s))
      ≡ some (record { pane_id = pane; output = s })
unfolding parse_control_output_line parse_output output_parts
parse_control_output_line-output pane must s h m a =
    rw (cut-word pane (escape must s) h.1, output_parts, trim_space-word pane h)
      (event_of_word pane must s h.0 m a)

cut-age :
    (age raw : Text)
    → All (λ c. is_space c ≡ false) age
    → cut 3 (codes " : ") (age ++ 32 ∷ 58 ∷ 32 ∷ raw) ≡ some (age, raw)
unfolding cut
cut-age [] raw a = refl
cut-age (c ∷ age) raw a = ground (arith, cut-age age raw a.1, not_blank c)

cut-head :
    (w s before raw : Text)
    → All (λ c. is_space c ≡ false) w
    → has_prefix (codes " : ") (32 ∷ s) ≡ false
    → cut 3 (codes " : ") s ≡ some (before, raw)
    → cut 3 (codes " : ") (w ++ 32 ∷ s) ≡ some (w ++ 32 ∷ before, raw)
unfolding cut
cut-head [] s before raw a h e = ground arith
cut-head (c ∷ w) s before raw a h e = ground (arith, cut-head w s before raw a.1 h e, not_blank c)

no_colon :
    (age raw : Text)
    → IsWord age
    → has_prefix (codes ":") age ≡ false
    → has_prefix (codes " : ") (32 ∷ age ++ raw) ≡ false
unfolding has_prefix
no_colon [] raw h e = absurd (h.0 refl)
no_colon (c ∷ age) raw h e = ground arith

trim-head : (w age : Text) → IsWord w → IsWord age → trim_space (w ++ 32 ∷ age) ≡ w ++ 32 ∷ age
trim-head w age h k =
    subst (λ t. trim_space t ≡ t) (append_assoc w (32 ∷ []) age)
      (trim_space-words w (32 ∷ []) age h k)

head-not_empty : (w age : Text) → is_empty (w ++ 32 ∷ age) ≡ false
head-not_empty [] age = refl
head-not_empty (c ∷ w) age = refl

-- A line `%extended-output PANE AGE : DATA` is read back as the pane and its bytes; the age is a
-- word that does not begin with a colon.
pub parse_control_output_line-extended :
    (pane age : Text) (must : ℕ → Bool) (s : List ℕ)
    → IsWord pane
    → IsWord age
    → has_prefix (codes ":") age ≡ false
    → must 92 ≡ true
    → All (λ c. c < 256) s
    → parse_control_output_line
        (codes "%extended-output " ++ (pane ++ 32 ∷ (age ++ 32 ∷ 58 ∷ 32 ∷ escape must s)))
      ≡ some (record { pane_id = pane; output = s })
unfolding parse_control_output_line parse_extended_output extended_parts fields_event
parse_control_output_line-extended pane age must s h k n m a =
    rw
      (
        cut-head pane (age ++ 32 ∷ 58 ∷ 32 ∷ escape must s) age (escape must s) h.1
            (no_colon age (32 ∷ 58 ∷ 32 ∷ escape must s) k n) (cut-age age (escape must s) k.1),
        extended_parts,
        trim-head pane age h k,
        head-not_empty pane age,
        fields-word pane age h,
        fields_event,
        trim_space-word pane h,
      )
      (event_of_word pane must s h.0 m a)
