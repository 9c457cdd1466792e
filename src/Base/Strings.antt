-- ===== src/Base/Strings.antt =====
-- Go's `string` and the functions of package strings that the program calls. A `Text` is the list
-- of the code points of a valid UTF-8 string; code that works on bytes uses the list of the bytes.
use Prim.Native.Nat.{ℕ, ◌+◌}
use Prim.Native.Char.{code}
use Prim.Native.String.{String}
use mathlib.Core.Path.{◌≡◌, refl}
use mathlib.Core.Logic.{◌↔◌, ◌≢◌, ◌⊎◌, inl, inr}
use mathlib.Core.Bool.{Bool, true, false, ◌&&◌, ◌||◌}
use mathlib.Core.List.{List, [], ◌∷◌, ◌++◌, map}
use native.Mathlib.Omega.{arith}
use shellman.Base.Tests.{leb, ◌==◌, if◌then◌else◌, Bool-cases}

abbrev pub Text : Type 0
Text = List ℕ

-- A literal.
abbrev pub codes : String → Text
codes String.[] = []
codes (String.◌∷◌ c s) = code c ∷ codes s

unfoldable pub text_eq : Text → Text → Bool
text_eq [] [] = true
text_eq [] (_ ∷ _) = false
text_eq (_ ∷ _) [] = false
text_eq (a ∷ s) (b ∷ t) = (a == b) && text_eq s t

pub text_eq_refl : (s : Text) → text_eq s s ≡ true
unfolding text_eq
text_eq_refl [] = refl
text_eq_refl (a ∷ s) = ground (arith, text_eq_refl s)

eq_of_text_eq : (s t : Text) → text_eq s t ≡ true → s ≡ t
unfolding text_eq
eq_of_text_eq [] [] h = refl
eq_of_text_eq [] (b ∷ t) h = cc
eq_of_text_eq (a ∷ s) [] h = cc
eq_of_text_eq (a ∷ s) (b ∷ t) h = ground (arith, eq_of_text_eq s t)

pub text_eq_iff : (s t : Text) → (text_eq s t ≡ true) ↔ (s ≡ t)
text_eq_iff s t = (eq_of_text_eq s t, λ e. rw e (text_eq_refl t))

-- `s == ""`.
abbrev pub is_empty : Text → Bool
is_empty [] = true
is_empty (_ ∷ _) = false

pub nil_of_empty : (s : Text) → is_empty s ≡ true → s ≡ []
nil_of_empty [] e = refl
nil_of_empty (c ∷ s) e = cc

pub empty-cases : (s : Text) → (is_empty s ≡ true) ⊎ ((is_empty s ≡ false) × (s ≢ []))
empty-cases [] = inl refl
empty-cases (c ∷ s) = inr (refl, λ e. cc)

-- `unicode.IsSpace`.
unfoldable pub is_space : ℕ → Bool
is_space c =
    (leb 9 c && leb c 13)
    || (c == 32)
    || (c == 0x85)
    || (c == 0xa0)
    || (c == 0x1680)
    || (leb 0x2000 c && leb c 0x200a)
    || (c == 0x2028)
    || (c == 0x2029)
    || (c == 0x202f)
    || (c == 0x205f)
    || (c == 0x3000)

unfoldable pub trim_left : Text → Text
trim_left [] = []
trim_left (c ∷ s) = let rest = trim_left s in if is_space c then rest else c ∷ s

-- A space is dropped when nothing but spaces follows it.
unfoldable pub trim_cons : ℕ → Text → Text
trim_cons c [] = if is_space c then [] else c ∷ []
trim_cons c (d ∷ s) = c ∷ d ∷ s

trim_left-trim_cons :
    (c : ℕ) (s : Text) → is_space c ≡ false → trim_left (trim_cons c s) ≡ trim_cons c s
unfolding trim_left trim_cons
trim_left-trim_cons c [] e = rw (e, e)
trim_left-trim_cons c (d ∷ s) e = rw e

unfoldable pub trim_right : Text → Text
unfolding trim_cons
trim_right [] = []
trim_right (c ∷ s) = trim_cons c (trim_right s)

-- `strings.TrimSpace`.
unfoldable pub trim_space : Text → Text
unfolding trim_left trim_right is_space
trim_space s = trim_right (trim_left s)

trim_cons_fixed : (c : ℕ) (s : Text) → trim_right s ≡ s → trim_right (trim_cons c s) ≡ trim_cons c s
unfolding trim_right
trim_cons_fixed c [] e = elim (Bool-cases (is_space c)) [ inl h ↦ rw h | inr h ↦ rw (h, h) ]
trim_cons_fixed c (d ∷ s) e = rw e

trim_right_idem : (s : Text) → trim_right (trim_right s) ≡ trim_right s
unfolding trim_right
trim_right_idem [] = refl
trim_right_idem (c ∷ s) = trim_cons_fixed c (trim_right s) (trim_right_idem s)

trim_left-trim_right : (s : Text) → trim_left (trim_right (trim_left s)) ≡ trim_right (trim_left s)
unfolding trim_left
trim_left-trim_right [] = unfold trim_right in refl
trim_left-trim_right (c ∷ s) = elim (Bool-cases (is_space c)) [
  | inl e ↦ rw e (trim_left-trim_right s)
  | inr e ↦ rw e (unfold trim_right in trim_left-trim_cons c (trim_right s) e)
]

pub trim_space_idem : (s : Text) → trim_space (trim_space s) ≡ trim_space s
trim_space_idem s = unfold trim_space in rw (trim_left-trim_right s) (trim_right_idem (trim_left s))

-- `strings.ToLower` on the runes that matter to the ASCII words of the program: A to Z, and the two
-- runes outside ASCII whose lower case is an ASCII letter.
unfoldable pub lower : ℕ → ℕ
lower c =
    if leb b'A' c && leb c b'Z'
    then c + 32
    else (if c == 0x130 then b'i' else if c == 0x212a then b'k' else c)

unfoldable pub to_lower : Text → Text
unfolding lower
to_lower = map lower

-- `strings.HasPrefix`, with the arguments swapped.
unfoldable pub has_prefix : Text → Text → Bool
has_prefix [] s = true
has_prefix (_ ∷ _) [] = false
has_prefix (a ∷ p) (b ∷ s) = (a == b) && has_prefix p s

-- `strings.Contains`, with the arguments swapped.
unfoldable pub contains : Text → Text → Bool
unfolding has_prefix
contains p [] = has_prefix p []
contains p (c ∷ s) = has_prefix p (c ∷ s) || contains p s

-- `strings.Fields`: the maximal runs of runes that are no space.
unfoldable pub fields_from : Text → Text → List Text
fields_from word [] = if is_empty word then [] else word ∷ []
fields_from word (c ∷ s) =
    let closed = fields_from [] s in
    let longer = fields_from (word ++ c ∷ []) s in
    if is_space c then (if is_empty word then closed else word ∷ closed) else longer

unfoldable pub fields : Text → List Text
unfolding fields_from is_space
fields s = fields_from [] s

-- Whether a text is in a list, and a list with no text twice.
unfoldable pub mem : Text → List Text → Bool
mem t [] = false
mem t (x ∷ xs) = text_eq x t || mem t xs

abbrev pub IsDistinct : List Text → Type 0
IsDistinct [] = Unit
IsDistinct (x ∷ xs) = (mem x xs ≡ false) × IsDistinct xs

pub mem-append : (t : Text) (xs ys : List Text) → mem t (xs ++ ys) ≡ (mem t xs || mem t ys)
unfolding mem
mem-append t [] ys = refl
mem-append t (x ∷ xs) ys = ground (arith, mem-append t xs ys)

pub IsDistinct-snoc :
    (xs : List Text) (t : Text) → IsDistinct xs → mem t xs ≡ false → IsDistinct (xs ++ t ∷ [])
unfolding mem
IsDistinct-snoc [] t d h = (refl, tt)
IsDistinct-snoc (x ∷ xs) t d h =
    ground (arith, mem-append x xs (t ∷ []), IsDistinct-snoc xs t, text_eq_iff x t, text_eq_iff t x)
