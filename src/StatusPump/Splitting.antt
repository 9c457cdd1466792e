-- ===== src/StatusPump/Splitting.antt =====
-- splitTmuxStatusItems: the chunks have all of the items in their order, and are as large as fits.
use shellman.Base.{
  ℕ, ◌<◌, ◌≡◌, ◌⊎◌, inl, inr, refl, ap, subst, Bool, true, false, List, [], ◌∷◌, ◌++◌, append_assoc,
  Option, none, some, arith, length, All,
}
use shellman.Registry.{SessionStatusItem}
use shellman.StatusPump.{
  tmux_status_chunk_fits, place, split_loop, then_chunks, last_chunk, split_tmux_status_items,
}

abbrev pub Items : Type 0
Items = List SessionStatusItem

-- All of the items.
unfoldable pub joined : List Items → Items
joined [] = []
joined (c ∷ cs) = c ++ joined cs

module _ (probe_size : Items → Option ℕ) (max_bytes : ℕ) where
  abbrev pub fits : Items → Option Bool
  fits = tmux_status_chunk_fits probe_size max_bytes

  -- A chunk fits, or it is one item alone.
  abbrev pub IsSized : Items → Type 0
  IsSized c = (fits c ≡ some true) ⊎ (length c ≡ 1)

  -- Each chunk is over the bound, or would be with the first item of the next.
  abbrev pub Full : List Items → Type 0
  Full [] = Unit
  Full (c ∷ []) = Unit
  Full (c ∷ [] ∷ cs) = ⊥
  Full (c ∷ (x ∷ xs) ∷ cs) =
      ((fits c ≡ some false) ⊎ (fits (c ++ x ∷ []) ≡ some false)) × Full ((x ∷ xs) ∷ cs)

  -- What the chunks of the items are.
  pub record SplitInto (items : Items) (chunks : List Items) : Type 0 where
    pub whole : joined chunks ≡ items
    pub sized : All IsSized chunks
    pub full : Full chunks
    pub not_empty : All (λ c. 0 < length c) chunks

  -- The result of splitting: chunks, or an error of the encoder.
  abbrev pub Split : Items → Option (List Items) → Type 0
  Split items none = (xs : Items) × (fits xs ≡ none)
  Split items (some chunks) = SplitInto items chunks

  -- The first chunk begins with what was collected.
  abbrev Begins : Items → List Items → Type 0
  Begins [] chunks = Unit
  Begins (x ∷ xs) [] = ⊥
  Begins (x ∷ xs) ([] ∷ cs) = ⊥
  Begins (x ∷ xs) ((y ∷ ys) ∷ cs) = x ≡ y

  abbrev Ended : Items → Items → Option (List Items) → Type 0
  Ended current items none = (xs : Items) × (fits xs ≡ none)
  Ended current items (some chunks) = SplitInto (current ++ items) chunks × Begins current chunks

  -- What is collected fits, is one item, or is nothing.
  abbrev IsCurrent : Items → Type 0
  IsCurrent c = (c ≡ []) ⊎ IsSized c

  Begins-shorter :
      (current : Items) (item : SessionStatusItem) (chunks : List Items)
      → Begins (current ++ item ∷ []) chunks
      → Begins current chunks
  Begins-shorter [] item chunks b = tt
  Begins-shorter (x ∷ xs) item [] b = b
  Begins-shorter (x ∷ xs) item ([] ∷ cs) b = b
  Begins-shorter (x ∷ xs) item ((y ∷ ys) ∷ cs) b = b

  place_longer :
      (current : Items) (item : SessionStatusItem) (items : Items) (longer : Option (List Items))
      → Ended (current ++ item ∷ []) items longer
      → Ended current (item ∷ items) longer
  place_longer current item items none r = r
  place_longer current item items (some chunks) r = (
    subst (λ xs. SplitInto xs chunks) (append_assoc current (item ∷ []) items) r.0,
    Begins-shorter current item chunks r.1,
  )

  alone-Full :
      (item : SessionStatusItem) (cs : List Items)
      → fits (item ∷ []) ≡ some false
      → Full cs
      → All (λ c. 0 < length c) cs
      → Full ((item ∷ []) ∷ cs)
  alone-Full item [] e f n = tt
  alone-Full item ([] ∷ cs) e f n = absurd (omega (arith, n.0))
  alone-Full item ((y ∷ ys) ∷ cs) e f n = (inl e, f)

  place_alone :
      (item : SessionStatusItem) (items : Items) (fresh : Option (List Items))
      → fits (item ∷ []) ≡ some false
      → Ended [] items fresh
      → Ended [] (item ∷ items) (then_chunks (item ∷ []) fresh)
  unfolding then_chunks
  place_alone item items none e r = r
  place_alone item items (some chunks) e r = (
    record {
      whole = unfold joined in ap (λ xs. item ∷ xs) r.0.whole;
      sized = (inr refl, r.0.sized);
      full = alone-Full item chunks e r.0.full r.0.not_empty;
      not_empty = (omega arith, r.0.not_empty);
    },
    tt,
  )

  before-Full :
      (c : Items) (item : SessionStatusItem) (cs : List Items)
      → fits (c ++ item ∷ []) ≡ some false
      → Begins (item ∷ []) cs
      → Full cs
      → Full (c ∷ cs)
  before-Full c item [] e b f = absurd b
  before-Full c item ([] ∷ cs) e b f = absurd b
  before-Full c item ((y ∷ ys) ∷ cs) e b f =
      (inr (subst (λ i. fits (c ++ i ∷ []) ≡ some false) b e), f)

  place_begun :
      (x : SessionStatusItem) (xs : Items) (item : SessionStatusItem) (items : Items)
      (begun : Option (List Items))
      → fits (x ∷ xs ++ item ∷ []) ≡ some false
      → IsSized (x ∷ xs)
      → Ended (item ∷ []) items begun
      → Ended (x ∷ xs) (item ∷ items) (then_chunks (x ∷ xs) begun)
  unfolding then_chunks
  place_begun x xs item items none e c r = r
  place_begun x xs item items (some chunks) e c r = (
    record {
      whole = unfold joined in ap (λ ys. x ∷ xs ++ ys) r.0.whole;
      sized = (c, r.0.sized);
      full = before-Full (x ∷ xs) item chunks e r.1 r.0.full;
      not_empty = (omega arith, r.0.not_empty);
    },
    refl,
  )

  IsCurrent-IsSized : (x : SessionStatusItem) (xs : Items) → IsCurrent (x ∷ xs) → IsSized (x ∷ xs)
  IsCurrent-IsSized x xs (inl e) = cc
  IsCurrent-IsSized x xs (inr c) = c

  last_chunk-Ended :
      (current : Items)
      → IsCurrent current
      → SplitInto (current ++ []) (last_chunk current) × Begins current (last_chunk current)
  unfolding last_chunk joined
  last_chunk-Ended [] c = (record { whole = refl; sized = tt; full = tt; not_empty = tt }, tt)
  last_chunk-Ended (x ∷ xs) c = (
    record {
      whole = refl;
      sized = (IsCurrent-IsSized x xs c, tt);
      full = tt;
      not_empty = (omega arith, tt);
    },
    refl,
  )

  place-Ended :
      (verdict : Option Bool) (current : Items) (item : SessionStatusItem) (items : Items)
      (longer fresh begun : Option (List Items))
      → fits (current ++ item ∷ []) ≡ verdict
      → IsCurrent current
      → (verdict ≡ some true → Ended (current ++ item ∷ []) items longer)
      → Ended [] items fresh
      → Ended (item ∷ []) items begun
      → Ended current
          (item ∷ items)
          (place probe_size max_bytes verdict current item longer fresh begun)
  unfolding place
  place-Ended none current item items longer fresh begun e c l f b = (current ++ item ∷ [], e)
  place-Ended (some true) current item items longer fresh begun e c l f b =
      place_longer current item items longer (l refl)
  place-Ended (some false) [] item items longer fresh begun e c l f b =
      place_alone item items fresh e f
  place-Ended (some false) (x ∷ xs) item items longer fresh begun e c l f b =
      place_begun x xs item items begun e (IsCurrent-IsSized x xs c) b

  split_loop-Ended :
      (current items : Items)
      → IsCurrent current
      → Ended current items (split_loop probe_size max_bytes current items)
  unfolding split_loop
  split_loop-Ended current [] c = last_chunk-Ended current c
  split_loop-Ended current (item ∷ items) c =
      place-Ended (fits (current ++ item ∷ [])) current item items
        (split_loop probe_size max_bytes (current ++ item ∷ []) items)
        (split_loop probe_size max_bytes [] items)
        (split_loop probe_size max_bytes (item ∷ []) items) refl c
        (λ e. split_loop-Ended (current ++ item ∷ []) items (inr (inl e)))
        (split_loop-Ended [] items (inl refl)) (split_loop-Ended (item ∷ []) items (inr (inr refl)))

  Split-result :
      (items : Items) (result : Option (List Items)) → Ended [] items result → Split items result
  Split-result items none r = r
  Split-result items (some chunks) r = r.0

  -- Items (at least one) are split into chunks that have all of them in their order; no chunk is
  -- empty, each fits, as far as the probe tells, or is one item alone, and each is over the bound
  -- or would be with the first item of the next one. An error is one of the encoder.
  pub split_tmux_status_items-Split :
      (items : Items)
      → 0 < length items
      → Split items (split_tmux_status_items probe_size max_bytes items)
  unfolding split_tmux_status_items
  split_tmux_status_items-Split [] p = absurd (omega arith)
  split_tmux_status_items-Split (item ∷ items) p =
      Split-result (item ∷ items) (split_loop probe_size max_bytes [] (item ∷ items))
        (split_loop-Ended [] (item ∷ items) (inl refl))
