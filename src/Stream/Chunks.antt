-- ===== src/Stream/Chunks.antt =====
-- chunkTermData: cutting the data of a frame loses nothing and keeps each frame within the bound;
-- DecideDelta: what each kind of delta carries.
use shellman.Base.{
  ℕ, zero, suc, ◌≤◌, ◌<◌, ◌≡◌, ◌≢◌, refl, true, false, List, [], ◌∷◌, ◌++◌, arith, Text, codes,
  length, take, drop, All, leb, take-append-drop, length-take, length-drop, append-nil, dec_le,
}
use shellman.Stream.{
  TermFrame, shrink, chunk_size, chunk_loop, chunk_data, chunk_term_data, max_term_frame_data_bytes,
}

-- The data of the frames, joined.
unfoldable pub joined : List TermFrame → List ℕ
joined [] = []
joined (f ∷ fs) = f.payload ++ joined fs

shrink-le : (n : ℕ) (rest : List ℕ) → shrink n rest ≤ n
unfolding shrink
shrink-le zero rest = omega arith
shrink-le (suc n) rest = ground (arith, shrink-le n rest)

-- Every round takes a byte, and no more than the bound.
pub chunk_size_bounds :
    (limit : ℕ) (rest : List ℕ)
    → 0 < limit
    → (0 < chunk_size limit rest) × (chunk_size limit rest ≤ limit)
unfolding chunk_size
chunk_size_bounds limit rest p = ground (arith, shrink-le (length rest) rest, shrink-le limit rest)

left_over :
    (k c : ℕ) (rest : List ℕ) {fuel : ℕ}
    → 0 < k
    → length (c ∷ rest) ≤ suc fuel
    → length (drop k (c ∷ rest)) ≤ fuel
left_over k c rest p h = omega (arith, length-drop k (c ∷ rest))

take-ne-nil : (k c : ℕ) (rest : List ℕ) → 0 < k → take k (c ∷ rest) ≢ []
take-ne-nil zero c rest p = absurd (omega arith)
take-ne-nil (suc k) c rest p = λ e. cc

fits_leb : (a b : ℕ) → a ≤ b → leb a b ≡ true
fits_leb a b h = ground arith

over_leb : (a b : ℕ) → ¬ (a ≤ b) → leb a b ≡ false
over_leb a b h = ground arith

-- The loop uses up all of the data.
chunk_loop-joined :
    (limit fuel : ℕ) (mode : Text) (rest : List ℕ)
    → 0 < limit
    → length rest ≤ fuel
    → joined (chunk_loop limit fuel mode rest) ≡ rest
unfolding chunk_loop joined
chunk_loop-joined limit zero mode [] p h = refl
chunk_loop-joined limit zero mode (c ∷ rest) p h = absurd (omega arith)
chunk_loop-joined limit (suc fuel) mode [] p h = refl
chunk_loop-joined limit (suc fuel) mode (c ∷ rest) p h =
    rw
      (chunk_loop-joined limit fuel (codes "append") (drop (chunk_size limit (c ∷ rest)) (c ∷ rest))
        p
        (left_over (chunk_size limit (c ∷ rest)) c rest (chunk_size_bounds limit (c ∷ rest) p).0 h))
      (take-append-drop (chunk_size limit (c ∷ rest)) (c ∷ rest))

-- The bound holds for each frame, and only the first has a mode of its own.
pub record IsChunk (limit : ℕ) (f : TermFrame) : Type 0 where
  pub bounded : length f.payload ≤ limit
  pub not_empty : f.payload ≢ []

chunk_loop-IsChunk :
    (limit fuel : ℕ) (mode : Text) (rest : List ℕ)
    → 0 < limit
    → All (IsChunk limit) (chunk_loop limit fuel mode rest)
unfolding chunk_loop
chunk_loop-IsChunk limit zero mode rest p = tt
chunk_loop-IsChunk limit (suc fuel) mode [] p = tt
chunk_loop-IsChunk limit (suc fuel) mode (c ∷ rest) p = (
  record {
    bounded = omega (
      arith,
      length-take (chunk_size limit (c ∷ rest)) (c ∷ rest),
      chunk_size_bounds limit (c ∷ rest) p,
    );
    not_empty =
        take-ne-nil (chunk_size limit (c ∷ rest)) c rest (chunk_size_bounds limit (c ∷ rest) p).0;
  },
  chunk_loop-IsChunk limit fuel (codes "append") (drop (chunk_size limit (c ∷ rest)) (c ∷ rest)) p,
)

abbrev pub IsAppend : TermFrame → Type 0
IsAppend f = f.mode ≡ codes "append"

-- The first frame has the given mode and the others append.
abbrev pub Led : Text → List TermFrame → Type 0
Led mode [] = ⊥
Led mode (f ∷ fs) = (f.mode ≡ mode) × All IsAppend fs

chunk_loop-IsAppend :
    (limit fuel : ℕ) (rest : List ℕ) → All IsAppend (chunk_loop limit fuel (codes "append") rest)
unfolding chunk_loop
chunk_loop-IsAppend limit zero rest = tt
chunk_loop-IsAppend limit (suc fuel) [] = tt
chunk_loop-IsAppend limit (suc fuel) (c ∷ rest) =
    (refl, chunk_loop-IsAppend limit fuel (drop (chunk_size limit (c ∷ rest)) (c ∷ rest)))

chunk_loop-Led :
    (limit fuel : ℕ) (mode : Text) (c : ℕ) (rest : List ℕ)
    → Led mode (chunk_loop limit (suc fuel) mode (c ∷ rest))
unfolding chunk_loop
chunk_loop-Led limit fuel mode c rest =
    (refl, chunk_loop-IsAppend limit fuel (drop (chunk_size limit (c ∷ rest)) (c ∷ rest)))

-- What the frames of a text are, for every bound: they carry the text, no byte lost, doubled or
-- moved; no frame is over the bound; the first has the mode that was asked for, and the others
-- append to it.
pub record Chunked (limit : ℕ) (mode : Text) (payload : List ℕ) (frames : List TermFrame)
    : Type 0 where
  pub whole : joined frames ≡ payload
  pub bounded : All (λ f. length f.payload ≤ limit) frames
  pub led : Led mode frames

All-bounded :
    (limit : ℕ) (fs : List TermFrame)
    → All (IsChunk limit) fs
    → All (λ f. length f.payload ≤ limit) fs
All-bounded limit [] a = tt
All-bounded limit (f ∷ fs) a = (a.0.bounded, All-bounded limit fs a.1)

chunk_data-Chunked :
    (limit : ℕ) (mode : Text) (payload : List ℕ)
    → 0 < limit
    → Chunked limit mode payload (chunk_data limit mode payload)
unfolding chunk_data
chunk_data-Chunked limit mode [] p = record {
  whole = unfold joined in ground arith;
  bounded = ground arith;
  led = ground arith;
}
chunk_data-Chunked limit mode (c ∷ rest) p = elim (dec_le (length (c ∷ rest)) limit) [
  | yes fits ↦ rw (fits_leb (length (c ∷ rest)) limit fits) (record {
    whole = unfold joined in append-nil (c ∷ rest);
    bounded = (fits, tt);
    led = (refl, tt);
  })
  | no over ↦ rw (over_leb (length (c ∷ rest)) limit over) (record {
    whole = chunk_loop-joined limit (length (c ∷ rest)) mode (c ∷ rest) p (omega arith);
    bounded = All-bounded limit _ (chunk_loop-IsChunk limit (length (c ∷ rest)) mode (c ∷ rest) p);
    led = chunk_loop-Led limit (length rest) mode c rest;
  })
]

-- Every list of frames that chunkTermData makes is `Chunked` at 24 KiB, and its loop ends.
pub chunk_term_data-Chunked :
    (mode : Text) (payload : List ℕ)
    → Chunked max_term_frame_data_bytes mode payload (chunk_term_data mode payload)
unfolding chunk_term_data
chunk_term_data-Chunked mode payload =
    chunk_data-Chunked max_term_frame_data_bytes mode payload (omega arith)
