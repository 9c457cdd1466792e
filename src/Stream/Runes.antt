-- ===== src/Stream/Runes.antt =====
-- chunkTermData cuts between two runes.
use shellman.Base.{
  ℕ, zero, suc, ◌≤◌, ◌<◌, ◌≡◌, inl, inr, true, List, [], ◌∷◌, arith, Text, codes, length, take,
  drop, All, ltb, leb, if◌then◌else◌, Bool-cases, take-append-drop, dec_le,
}
use shellman.Stream.Utf8.{valid_string, valid_string-behind, first_rune}
use shellman.Stream.{
  shrink, chunk_size, chunk_loop, chunk_data, chunk_term_data, max_term_frame_data_bytes,
}

-- The size that the inner loop stops at is that of a valid text, unless it is 0.
shrink-valid :
    (n : ℕ) (rest : List ℕ) → 0 < shrink n rest → valid_string (take (shrink n rest) rest) ≡ true
unfolding shrink
shrink-valid zero rest h = absurd (omega arith)
shrink-valid (suc n) rest h = elim (Bool-cases (valid_string (take (suc n) rest))) [
  | inl e ↦ rw (e, e)
  | inr e ↦ rw e (shrink-valid n rest (rw e at h))
]

shrink_pos :
    (n k : ℕ) (rest : List ℕ)
    → 0 < k
    → k ≤ n
    → valid_string (take k rest) ≡ true
    → 0 < shrink n rest
unfolding shrink
shrink_pos zero k rest p h v = omega arith
shrink_pos (suc n) k rest p h v = elim (dec_le k n) [
  | yes less ↦ ground (arith, shrink_pos n k rest p less v)
  | no same ↦
      let e : k ≡ suc n = omega arith in
      let top : valid_string (take (suc n) rest) ≡ true = rw e at v in rw top (omega arith)
]

chunk_size_of_pos :
    (limit : ℕ) (rest : List ℕ)
    → 0 < shrink (if ltb (length rest) limit then length rest else limit) rest
    → chunk_size limit rest ≡ shrink (if ltb (length rest) limit then length rest else limit) rest
unfolding chunk_size
chunk_size_of_pos limit rest h = ground arith

chunk_size-valid :
    (limit c : ℕ) (rest : List ℕ)
    → 4 ≤ limit
    → valid_string (c ∷ rest) ≡ true
    → valid_string (take (chunk_size limit (c ∷ rest)) (c ∷ rest)) ≡ true
chunk_size-valid limit c rest h v =
    let (k, small, fits, rune) = first_rune c rest v in
    let pos : 0
        < shrink (if ltb (length (c ∷ rest)) limit then length (c ∷ rest) else limit) (c ∷ rest) =
      shrink_pos (if ltb (length (c ∷ rest)) limit then length (c ∷ rest) else limit) (suc k)
        (c ∷ rest) (omega arith) (ground arith) rune in
    rw (chunk_size_of_pos limit (c ∷ rest) pos) (
      shrink-valid (if ltb (length (c ∷ rest)) limit then length (c ∷ rest) else limit) (c ∷ rest)
        pos)

chunk_loop-valid :
    (limit fuel : ℕ) (mode : Text) (rest : List ℕ)
    → 4 ≤ limit
    → valid_string rest ≡ true
    → All (λ f. valid_string f.payload ≡ true) (chunk_loop limit fuel mode rest)
unfolding chunk_loop
chunk_loop-valid limit zero mode rest h v = tt
chunk_loop-valid limit (suc fuel) mode [] h v = tt
chunk_loop-valid limit (suc fuel) mode (c ∷ rest) h v =
    let size = chunk_size limit (c ∷ rest) in
    let first : valid_string (take size (c ∷ rest)) ≡ true = chunk_size-valid limit c rest h v in
    (
      first,
      chunk_loop-valid limit fuel (codes "append") (drop size (c ∷ rest)) h (
          valid_string-behind (take size (c ∷ rest)) (drop size (c ∷ rest)) first
            (rw (take-append-drop size (c ∷ rest)) v)),
    )

chunk_data-valid :
    (limit : ℕ) (mode : Text) (payload : List ℕ)
    → 4 ≤ limit
    → valid_string payload ≡ true
    → All (λ f. valid_string f.payload ≡ true) (chunk_data limit mode payload)
unfolding chunk_data
chunk_data-valid limit mode payload h v = elim (Bool-cases (leb (length payload) limit)) [
  | inl e ↦ rw e (v, tt)
  | inr e ↦ rw e (chunk_loop-valid limit (length payload) mode payload h v)
]

-- No frame of a valid UTF-8 text splits a rune: the data of each is valid UTF-8 again, so that it
-- can be sent as JSON text with nothing replaced.
pub chunk_term_data-valid :
    (mode : Text) (payload : List ℕ)
    → valid_string payload ≡ true
    → All (λ f. valid_string f.payload ≡ true) (chunk_term_data mode payload)
unfolding chunk_term_data
chunk_term_data-valid mode payload v =
    chunk_data-valid max_term_frame_data_bytes mode payload (omega arith) v
