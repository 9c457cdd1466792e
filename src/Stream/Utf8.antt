-- ===== src/Stream/Utf8.antt =====
-- `utf8.ValidString` of Go's package unicode/utf8, as the automaton of its table.
use shellman.Base.{
  ℕ, zero, suc, ◌≤◌, ◌<◌, ◌≡◌, refl, sym, ◌∙◌, ◌⊎◌, inl, inr, Bool, true, false, ◌&&◌, List, [],
  ◌∷◌, ◌++◌, Option, none, some, arith, leb, ltb, ◌==◌, if◌then◌else◌, length, take, dec_lt,
}

-- How many continuation bytes are to come, and the range of the next one.
pub record Pending : Type 0 where
  pub need : ℕ
  pub lo : ℕ
  pub hi : ℕ

abbrev pub at_rest : Pending
at_rest = record { need = 0; lo = 0x80; hi = 0xbf }

-- After the first byte of a rune.
unfoldable pub lead : ℕ → Option Pending
lead c =
    if ltb c 0x80
    then some at_rest
    else if leb 0xc2 c && leb c 0xdf
    then some (record { need = 1; lo = 0x80; hi = 0xbf })
    else if c == 0xe0
    then some (record { need = 2; lo = 0xa0; hi = 0xbf })
    else if c == 0xed
    then some (record { need = 2; lo = 0x80; hi = 0x9f })
    else if leb 0xe1 c && leb c 0xef
    then some (record { need = 2; lo = 0x80; hi = 0xbf })
    else if c == 0xf0
    then some (record { need = 3; lo = 0x90; hi = 0xbf })
    else if leb 0xf1 c && leb c 0xf3
    then some (record { need = 3; lo = 0x80; hi = 0xbf })
    else if c == 0xf4
    then some (record { need = 3; lo = 0x80; hi = 0x8f })
    else none

continue : ℕ → Pending → ℕ → Option Pending
continue n p c =
    if leb p.lo c && leb c p.hi then some (record { need = n; lo = 0x80; hi = 0xbf }) else none

next_need : ℕ → Pending → ℕ → Option Pending
unfolding lead continue
next_need zero p c = lead c
next_need (suc n) p c = continue n p c

next : Pending → ℕ → Option Pending
unfolding next_need
next p c = next_need p.need p c

unfoldable pub and_then : Option Pending → (Pending → Option Pending) → Option Pending
and_then none f = none
and_then (some q) f = f q

-- The state after some bytes; `none` once a byte does not fit.
unfoldable pub scan : Pending → List ℕ → Option Pending
unfolding next and_then
scan p [] = some p
scan p (c ∷ s) = and_then (next p c) (λ q. scan q s)

unfoldable pub done : Option Pending → Bool
done none = false
done (some q) = q.need == 0

unfoldable pub valid_string : List ℕ → Bool
unfolding scan done
valid_string s = done (scan at_rest s)

next_need-at_rest :
    (n : ℕ) (p q : Pending) (c : ℕ) → next_need n p c ≡ some q → q.need ≡ 0 → q ≡ at_rest
unfolding next_need
next_need-at_rest zero p q c e h = ground arith
next_need-at_rest (suc n) p q c e h = ground arith

-- A rune that is begun takes one byte at a time.
next_less : (n : ℕ) (p q : Pending) (c : ℕ) → p.need ≡ suc n → next p c ≡ some q → q.need ≡ n
unfolding next
next_less n p q c h e = ground arith

and_then_assoc :
    (r : Option Pending) (f g : Pending → Option Pending)
    → and_then (and_then r f) g ≡ and_then r (λ q. and_then (f q) g)
unfolding and_then
and_then_assoc none f g = refl
and_then_assoc (some q) f g = refl

and_then_cong :
    (r : Option Pending) (f g : Pending → Option Pending)
    → ((q : Pending) → f q ≡ g q)
    → and_then r f ≡ and_then r g
unfolding and_then
and_then_cong none f g h = refl
and_then_cong (some q) f g h = h q

scan-append :
    (xs ys : List ℕ) (p : Pending) → scan p (xs ++ ys) ≡ and_then (scan p xs) (λ q. scan q ys)
unfolding scan
scan-append [] ys p = refl
scan-append (c ∷ xs) ys p =
    and_then_cong (next p c) (λ q. scan q (xs ++ ys)) (λ q. and_then (scan q xs) (λ t. scan t ys))
      (λ q. scan-append xs ys q)
    ∙ sym (and_then_assoc (next p c) (λ q. scan q xs) (λ t. scan t ys))

rest_step :
    (r : Option Pending) (p q : Pending) (c : ℕ) (s : List ℕ)
    → next p c ≡ r
    → ((t : Pending) → (t ≡ at_rest) ⊎ (0 < t.need) → scan t s ≡ some q → q ≡ at_rest)
    → and_then r (λ t. scan t s) ≡ some q
    → q ≡ at_rest
unfolding and_then
rest_step none p q c s e ih h = cc
rest_step (some t) p q c s e ih h = elim (dec_lt 0 t.need) [
  | yes more ↦ ih t (inr more) h
  | no over ↦ ih t (inl (unfold next in next_need-at_rest p.need p t c e (omega arith))) h
]

-- A text that was read without fault and ends between two runes ends in the state at rest.
scan-at_rest :
    (s : List ℕ) (p q : Pending)
    → (p ≡ at_rest) ⊎ (0 < p.need)
    → scan p s ≡ some q
    → q.need ≡ 0
    → q ≡ at_rest
unfolding scan
scan-at_rest [] p q h e d = ground arith
scan-at_rest (c ∷ s) p q h e d =
    rest_step (next p c) p q c s refl (λ t k f. scan-at_rest s t q k f d) e

done-some : (r : Option Pending) → done r ≡ true → (q : Pending) × (r ≡ some q) × (q.need ≡ 0)
unfolding done
done-some none h = cc
done-some (some q) h = (q, refl, ground arith)

-- Behind a valid text, what is left of a valid text is valid.
pub valid_string-behind :
    (xs ys : List ℕ)
    → valid_string xs ≡ true
    → valid_string (xs ++ ys) ≡ true
    → valid_string ys ≡ true
unfolding valid_string
valid_string-behind xs ys h k =
    let (q, e, d) = done-some (scan at_rest xs) h in
    let whole : scan at_rest (xs ++ ys) ≡ scan at_rest ys =
      scan-append xs ys at_rest
      ∙ (rw (e, and_then) (rw (scan-at_rest xs at_rest q (inl refl) e d))) in
    rw whole at k

complete_step :
    (n : ℕ) (r : Option Pending) (c : ℕ) (p : Pending) (s : List ℕ)
    → next p c ≡ r
    → p.need ≡ suc n
    → ((t : Pending)
        → t.need ≡ n
        → done (scan t s) ≡ true
        → (n ≤ length s) × (done (scan t (take n s)) ≡ true))
    → done (and_then r (λ t. scan t s)) ≡ true
    → (suc n ≤ suc (length s)) × (done (and_then r (λ t. scan t (take n s))) ≡ true)
unfolding and_then done
complete_step n none c p s e h ih k = cc
complete_step n (some t) c p s e h ih k =
    let (a, b) = ih t (next_less n p t c h e) k in (omega arith, b)

-- The bytes that a begun rune wants are there, and end it.
complete :
    (n : ℕ) (s : List ℕ) (p : Pending)
    → p.need ≡ n
    → done (scan p s) ≡ true
    → (n ≤ length s) × (done (scan p (take n s)) ≡ true)
unfolding scan
complete zero s p h k = (omega arith, unfold done in ground arith)
complete (suc n) [] p h k = absurd (unfold done in ground arith)
complete (suc n) (c ∷ s) p h k = complete_step n (next p c) c p s refl h (complete n s) k

-- The shortest prefix of a valid text that is not empty: one rune, of four bytes at most.
first_rune_step :
    (r : Option Pending) (c : ℕ) (s : List ℕ)
    → next at_rest c ≡ r
    → done (and_then r (λ t. scan t s)) ≡ true
    → (k : ℕ) × (k < 4) × (k ≤ length s) × (done (and_then r (λ t. scan t (take k s))) ≡ true)
unfolding and_then
first_rune_step none c s e h = (0, omega arith, omega arith, h)
first_rune_step (some t) c s e h =
    let (fits, ends) = complete t.need s t refl h in
    (t.need, unfold next in ground arith, fits, ends)

pub first_rune :
    (c : ℕ) (s : List ℕ)
    → valid_string (c ∷ s) ≡ true
    → (k : ℕ) × (k < 4) × (k ≤ length s) × (valid_string (take (suc k) (c ∷ s)) ≡ true)
unfolding valid_string
first_rune c s h = first_rune_step (next at_rest c) c s refl h
