-- ===== src/Control/Escapes.antt =====
-- decodeControlEscaped undoes the octal escapes of tmux.
use shellman.Base.{
  ℕ, ◌+◌, ◌/◌, ◌%◌, ◌<◌, ◌≡◌, ◌≢◌, inl, inr, refl, sym, ap, Bool, true, false, List, [], ◌∷◌, arith,
  if◌then◌else◌, Bool-cases, All,
}
use shellman.Control.{decode_loop, decode_control_escaped, has_backslash}

-- What tmux's control mode does with the output of a pane: a byte that `must` be escaped becomes a
-- backslash and three octal digits.
unfoldable pub escape : (ℕ → Bool) → List ℕ → List ℕ
escape must [] = []
escape must (c ∷ s) =
    let rest = escape must s in
    if must c then 92 ∷ (b'0' + c / 64) ∷ (b'0' + c / 8 % 8) ∷ (b'0' + c % 8) ∷ rest else c ∷ rest

decode_loop_plain : (c : ℕ) (s : List ℕ) → c ≢ 92 → decode_loop (c ∷ s) ≡ c ∷ decode_loop s
unfolding decode_loop
decode_loop_plain c [] h = refl
decode_loop_plain c (x ∷ []) h = refl
decode_loop_plain c (x ∷ y ∷ []) h = refl
decode_loop_plain c (x ∷ y ∷ z ∷ s) h = ground arith

decode_loop_escape :
    (c : ℕ) (s : List ℕ)
    → c < 256
    → decode_loop (92 ∷ (b'0' + c / 64) ∷ (b'0' + c / 8 % 8) ∷ (b'0' + c % 8) ∷ s)
      ≡ c ∷ decode_loop s
unfolding decode_loop
decode_loop_escape c s h = ground arith

decode_loop-escape :
    (must : ℕ → Bool) (s : List ℕ)
    → must 92 ≡ true
    → All (λ c. c < 256) s
    → decode_loop (escape must s) ≡ s
unfolding escape
decode_loop-escape must [] h a = unfold decode_loop in refl
decode_loop-escape must (c ∷ s) h a = elim (Bool-cases (must c)) [
  | inl e ↦ rw (e, decode_loop_escape c (escape must s) a.0, decode_loop-escape must s h a.1)
  | inr e ↦ rw (
    e,
    decode_loop_plain c (escape must s) (λ q. cc (ap must q)),
    decode_loop-escape must s h a.1,
  )
]

decode_loop-no_backslash : (s : List ℕ) → has_backslash s ≡ false → decode_loop s ≡ s
unfolding has_backslash
decode_loop-no_backslash [] h = unfold decode_loop in refl
decode_loop-no_backslash (c ∷ s) h =
    ground (arith, decode_loop_plain c s, decode_loop-no_backslash s)

pub decode_control_escaped-loop : (s : List ℕ) → decode_control_escaped s ≡ decode_loop s
unfolding decode_control_escaped
decode_control_escaped-loop [] = unfold decode_loop in refl
decode_control_escaped-loop (c ∷ s) = elim (Bool-cases (has_backslash (c ∷ s))) [
  | inl e ↦ rw e
  | inr e ↦ rw e (sym (decode_loop-no_backslash (c ∷ s) e))
]

-- Decoding what tmux escaped gives the pane's bytes back, for every choice of the bytes that tmux
-- escapes, as long as the backslash is among them.
pub decode_control_escaped-escape :
    (must : ℕ → Bool) (s : List ℕ)
    → must 92 ≡ true
    → All (λ c. c < 256) s
    → decode_control_escaped (escape must s) ≡ s
decode_control_escaped-escape must s h a =
    rw (decode_control_escaped-loop (escape must s)) (decode_loop-escape must s h a)
