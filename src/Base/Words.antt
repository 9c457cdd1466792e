-- ===== src/Base/Words.antt =====
-- Words: texts with no white space in them. Trimming leaves them alone, and `strings.Fields` finds
-- them again.
use Prim.Native.Nat.{ℕ}
use mathlib.Core.Path.{◌≡◌, refl, sym, ◌∙◌}
use mathlib.Core.Logic.{◌≢◌}
use mathlib.Core.Bool.{false}
use mathlib.Core.List.{[], ◌∷◌, ◌++◌, append_assoc, append-nil}
use shellman.Base.Lists.{All}
use shellman.Base.Strings.{
  Text, is_space, trim_left, trim_right, trim_cons, trim_space, fields_from, fields,
}

-- At least one rune, and no white space.
abbrev pub IsWord : Text → Type 0
IsWord w = (w ≢ []) × All (λ c. is_space c ≡ false) w

trim_cons_full : (c : ℕ) (s : Text) → s ≢ [] → trim_cons c s ≡ c ∷ s
unfolding trim_cons
trim_cons_full c [] h = absurd (h refl)
trim_cons_full c (d ∷ s) h = refl

trim_right-word : (w : Text) → All (λ c. is_space c ≡ false) w → trim_right w ≡ w
unfolding trim_right
trim_right-word [] a = refl
trim_right-word (c ∷ []) a = rw a.0
trim_right-word (c ∷ d ∷ w) a = rw (trim_right-word (d ∷ w) a.1)

append-ne-nil : (s w : Text) → w ≢ [] → s ++ w ≢ []
append-ne-nil [] w h = h
append-ne-nil (c ∷ s) w h = λ e. cc

trim_right-append : (s w : Text) → IsWord w → trim_right (s ++ w) ≡ s ++ w
unfolding trim_right
trim_right-append [] w h = trim_right-word w h.1
trim_right-append (c ∷ s) w h =
    rw (trim_right-append s w h) (trim_cons_full c (s ++ w) (append-ne-nil s w h.0))

-- A text between two words has nothing to trim.
pub trim_space-words : (v s w : Text) → IsWord v → IsWord w → trim_space (v ++ s ++ w) ≡ v ++ s ++ w
unfolding trim_space trim_left
trim_space-words [] s w h k = absurd (h.0 refl)
trim_space-words (c ∷ v) s w h k = rw h.1.0 (trim_right-append (c ∷ v ++ s) w k)

pub trim_space-word : (w : Text) → IsWord w → trim_space w ≡ w
unfolding trim_space trim_left
trim_space-word [] h = absurd (h.0 refl)
trim_space-word (c ∷ w) h = rw h.1.0 (trim_right-word (c ∷ w) h.1)

fields_from-word :
    (start w s : Text)
    → start ++ w ≢ []
    → All (λ c. is_space c ≡ false) w
    → fields_from start (w ++ 32 ∷ s) ≡ (start ++ w) ∷ fields_from [] s
unfolding fields_from is_space
fields_from-word [] [] s h a = absurd (h refl)
fields_from-word (c ∷ start) [] s h a = simp (append-nil)
fields_from-word start (c ∷ w) s h a = rw a.0 (
    simp append_assoc at (
      fields_from-word (start ++ c ∷ []) w s (λ e. h (sym (append_assoc start (c ∷ []) w) ∙ e))
        a.1))

-- The first field of a text that begins with a word and a blank is the word.
pub fields-word : (w s : Text) → IsWord w → fields (w ++ 32 ∷ s) ≡ w ∷ fields s
unfolding fields
fields-word w s h = fields_from-word [] w s h.0 h.1
