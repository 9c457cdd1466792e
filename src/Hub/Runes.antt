-- ===== src/Hub/Runes.antt =====
-- splitUTF8Payload: the loop over the bytes, when more bytes follow.
use shellman.Base.{
  ℕ, zero, suc, ◌+◌, ◌≡◌, ◌≤◌, ◌<◌, refl, sym, ap, ◌∙◌, subst, inl, inr, List, [], ◌∷◌, ◌++◌,
  Option, none, some, arith, Option-cases, length,
}
use shellman.Stream.Utf8.{Pending, lead}
use shellman.Hub.{rune_tail, size_of, rest_size, split_from}

rune_tail-append :
    (n lo hi : ℕ) (s t : List ℕ) (m k : ℕ)
    → size_of m (rune_tail n lo hi s) ≡ some k
    → size_of m (rune_tail n lo hi (s ++ t)) ≡ some k
unfolding rune_tail size_of
rune_tail-append zero lo hi s t m k h = h
rune_tail-append (suc n) lo hi [] t m k h = ground (arith, h)
rune_tail-append (suc n) lo hi (c ∷ s) t m k h =
    ground (arith, h, rune_tail-append n 0x80 0xbf s t m k)

rune_tail-fits :
    (n lo hi : ℕ) (s : List ℕ) (d m k : ℕ)
    → m ≡ n + d
    → size_of m (rune_tail n lo hi s) ≡ some k
    → k ≤ length s + d
unfolding rune_tail size_of
rune_tail-fits zero lo hi s d m k e h = ground (arith, h, e)
rune_tail-fits (suc n) lo hi [] d m k e h = ground (arith, h)
rune_tail-fits (suc n) lo hi (c ∷ s) d m k e h =
    ground (arith, e, h, rune_tail-fits n 0x80 0xbf s (suc d) m k)

rune_tail-short :
    (n m lo hi : ℕ) (s : List ℕ) → size_of m (rune_tail n lo hi s) ≡ none → length s < n
unfolding rune_tail size_of
rune_tail-short zero m lo hi s h = ground (arith, h)
rune_tail-short (suc n) m lo hi [] h = ground arith
rune_tail-short (suc n) m lo hi (c ∷ s) h = ground (arith, h, rune_tail-short n m 0x80 0xbf s)

need_of : Option Pending → ℕ
need_of none = 0
need_of (some p) = p.need

need_of-lead : (c : ℕ) → need_of (lead c) ≤ 3
unfolding lead need_of
need_of-lead c = ground arith

-- A size that is known stays when more bytes come; it is within the bytes; and it is unknown only
-- with fewer than three bytes.
rest_size-append :
    (o : Option Pending) (s t : List ℕ) (k : ℕ)
    → rest_size o s ≡ some k
    → rest_size o (s ++ t) ≡ some k
unfolding rest_size
rest_size-append none s t k h = h
rest_size-append (some p) s t k h = rune_tail-append p.need p.lo p.hi s t p.need k h

rest_size-fits : (o : Option Pending) (s : List ℕ) (k : ℕ) → rest_size o s ≡ some k → k ≤ length s
unfolding rest_size
rest_size-fits none s k h = ground (arith, h)
rest_size-fits (some p) s k h =
    omega (arith, rune_tail-fits p.need p.lo p.hi s 0 p.need k (omega arith) h)

rest_size-short : (o : Option Pending) (s : List ℕ) → rest_size o s ≡ none → length s < need_of o
unfolding rest_size need_of
rest_size-short none s h = ground (arith, h)
rest_size-short (some p) s h = rune_tail-short p.need p.need p.lo p.hi s h

split_from-short :
    (c : ℕ) (s : List ℕ) → rest_size (lead c) s ≡ none → split_from 0 (c ∷ s) ≡ ([], c ∷ s)
unfolding split_from
split_from-short c s e = rw (e, split_from) refl

split_from-size :
    (c : ℕ) (s : List ℕ) (n : ℕ)
    → rest_size (lead c) s ≡ some n
    → split_from 0 (c ∷ s) ≡ (c ∷ (split_from n s).0, (split_from n s).1)
unfolding split_from
split_from-size c s n e = rw (e, split_from) refl

split_from_skip :
    (skip : ℕ) (c : ℕ) (s : List ℕ)
    → split_from (suc skip) (c ∷ s) ≡ (c ∷ (split_from skip s).0, (split_from skip s).1)
unfolding split_from
split_from_skip skip c s = refl

-- Nothing is lost.
pub split_from-whole : (skip : ℕ) (s : List ℕ) → (split_from skip s).0 ++ (split_from skip s).1 ≡ s
split_from-whole zero [] = unfold split_from in refl
split_from-whole (suc skip) [] = unfold split_from in refl
split_from-whole (suc skip) (c ∷ s) =
    rw (split_from_skip skip c s) (ap (λ r. c ∷ r) (split_from-whole skip s))
split_from-whole zero (c ∷ s) = elim (Option-cases (rest_size (lead c) s)) [
  | inl e ↦ rw (split_from-short c s e) refl
  | inr (n, e) ↦ rw (split_from-size c s n e) (ap (λ r. c ∷ r) (split_from-whole n s))
]

-- After some bytes, those that wait are looked at again with the bytes that follow.
abbrev pub continued : List ℕ → List ℕ × List ℕ → List ℕ × List ℕ
continued t r = (r.0 ++ (split_from 0 (r.1 ++ t)).0, (split_from 0 (r.1 ++ t)).1)

abbrev pub IsWaiting : List ℕ → Type 0
IsWaiting rest = (length rest ≤ 3) × (split_from 0 rest ≡ ([], rest))

pub split_from-append :
    (skip : ℕ) (s t : List ℕ)
    → skip ≤ length s
    → split_from skip (s ++ t) ≡ continued t (split_from skip s)
split_from-append zero [] t h = unfold split_from in refl
split_from-append (suc skip) [] t h = ground (arith, h)
split_from-append (suc skip) (c ∷ s) t h =
    split_from_skip skip c (s ++ t)
    ∙ ap (λ (r : List ℕ × List ℕ). (c ∷ r.0, r.1)) (split_from-append skip s t (omega (arith, h)))
    ∙ ap (continued t) (sym (split_from_skip skip c s))
split_from-append zero (c ∷ s) t h = elim (Option-cases (rest_size (lead c) s)) [
  | inl e ↦ rw (split_from-short c s e) refl
  | inr (n, e) ↦
      split_from-size c (s ++ t) n (rest_size-append (lead c) s t n e)
      ∙ ap (λ (r : List ℕ × List ℕ). (c ∷ r.0, r.1))
          (split_from-append n s t (rest_size-fits (lead c) s n e))
      ∙ ap (continued t) (sym (split_from-size c s n e))
]

-- What waits is less than a rune: it is at most three bytes, and by itself all of it would wait.
pub split_from-IsWaiting : (skip : ℕ) (s : List ℕ) → IsWaiting (split_from skip s).1
split_from-IsWaiting zero [] = unfold split_from in (omega arith, refl)
split_from-IsWaiting (suc skip) [] = unfold split_from in (omega arith, refl)
split_from-IsWaiting (suc skip) (c ∷ s) =
    subst (λ (r : List ℕ × List ℕ). IsWaiting r.1) (sym (split_from_skip skip c s))
      (split_from-IsWaiting skip s)
split_from-IsWaiting zero (c ∷ s) = elim (Option-cases (rest_size (lead c) s)) [
  | inl e ↦
      subst (λ (r : List ℕ × List ℕ). IsWaiting r.1) (sym (split_from-short c s e))
        (omega (arith, rest_size-short (lead c) s e, need_of-lead c), split_from-short c s e)
  | inr (n, e) ↦
      subst (λ (r : List ℕ × List ℕ). IsWaiting r.1) (sym (split_from-size c s n e))
        (split_from-IsWaiting n s)
]
