-- ===== src/Base/Tails.antt =====
-- The last elements of a list, and how they are kept while the list grows at its end.
use Prim.Native.Nat.{ℕ, suc, ◌-◌, ◌≤◌}
use mathlib.Core.Path.{◌≡◌, refl, ap, ◌∙◌, sym}
use mathlib.Core.List.{List, [], ◌∷◌, ◌++◌, append_assoc}
use native.Mathlib.Omega.{arith}
use native.Mathlib.Decide.{dec_le}
use shellman.Base.Lists.{length, take, drop, length-append, length-drop, take-append-drop}

module _ {ℓ} {A : Type ℓ} where
  -- `xs[len(xs)-n:]`, or the whole list when it is not longer.
  unfoldable pub keep_last : ℕ → List A → List A
  keep_last n xs = drop (length xs - n) xs

  drop_eq : (m n : ℕ) (xs : List A) → m ≡ n → drop m xs ≡ drop n xs
  drop_eq m n xs e = ap (λ k. drop k xs) e

  pub keep_last_all : (n : ℕ) (xs : List A) → length xs ≤ n → keep_last n xs ≡ xs
  unfolding keep_last
  keep_last_all n xs h = drop_eq (length xs - n) 0 xs (omega arith)

  pub length-keep_last : (n : ℕ) (xs : List A) → length (keep_last n xs) ≤ n
  unfolding keep_last
  length-keep_last n xs = omega (arith, length-drop (length xs - n) xs)

  pub keep_last_skip :
      (n : ℕ) (us vs : List A) → n ≤ length vs → keep_last n (us ++ vs) ≡ keep_last n vs
  unfolding keep_last
  keep_last_skip n [] vs h = refl
  keep_last_skip n (u ∷ us) vs h =
      drop_eq (suc (length (us ++ vs)) - n) (suc (length (us ++ vs) - n)) (u ∷ us ++ vs)
        (omega (arith, length-append us vs))
      ∙ keep_last_skip n us vs h

  split_tail : (n : ℕ) (xs ys : List A) → take n xs ++ (drop n xs ++ ys) ≡ xs ++ ys
  split_tail n xs ys =
      sym (append_assoc (take n xs) (drop n xs) ys) ∙ ap (λ zs. zs ++ ys) (take-append-drop n xs)

  -- What is over the bound can be cut off before or after more is appended.
  pub keep_last-append :
      (n : ℕ) (xs ys : List A) → keep_last n (keep_last n xs ++ ys) ≡ keep_last n (xs ++ ys)
  unfolding keep_last
  keep_last-append n xs ys = elim (dec_le (length xs) n) [
    | yes short ↦ rw (keep_last_all n xs short) refl
    | no long ↦
        sym (
          keep_last_skip n (take (length xs - n) xs) (drop (length xs - n) xs ++ ys) (
            omega
              (arith, length-append (drop (length xs - n) xs) ys, length-drop (length xs - n) xs)))
        ∙ ap (keep_last n) (split_tail (length xs - n) xs ys)
  ]

  tail_fits :
      (n : ℕ) (xs ys : List A)
      → length ys ≤ n
      → n - length ys ≤ length xs
      → length (drop (length xs - (n - length ys)) xs ++ ys) ≡ n
  tail_fits n xs ys h long = omega (
    arith,
    length-append (drop (length xs - (n - length ys)) xs) ys,
    length-drop (length xs - (n - length ys)) xs,
  )

  -- A short end stands whole, after the end of what is in front of it.
  pub keep_last-split :
      (n : ℕ) (xs ys : List A)
      → length ys ≤ n
      → keep_last n (xs ++ ys) ≡ keep_last (n - length ys) xs ++ ys
  unfolding keep_last
  keep_last-split n xs ys h = elim (dec_le (length xs) (n - length ys)) [
    | yes short ↦
        rw (keep_last_all (n - length ys) xs short)
          (keep_last_all n (xs ++ ys) (omega (arith, length-append xs ys)))
    | no long ↦
        let tail = drop (length xs - (n - length ys)) xs ++ ys in
        ap (keep_last n) (sym (split_tail (length xs - (n - length ys)) xs ys))
        ∙ keep_last_skip n (take (length xs - (n - length ys)) xs) tail
            (omega (arith, tail_fits n xs ys h (omega arith)))
        ∙ keep_last_all n tail (omega (arith, tail_fits n xs ys h (omega arith)))
  ]
