-- ===== src/Hub/Splitting.antt =====
-- splitUTF8Payload and consumeUTF8Chunk: the output of a pane, however it is cut into chunks.
use shellman.Base.{
  ℕ, ◌≡◌, ◌≤◌, refl, sym, ap, ◌∙◌, subst, inl, inr, List, [], ◌∷◌, ◌++◌, arith, if◌then◌else◌,
  Bool-cases, Text, text_eq, text_eq_iff, text_eq_refl, length, append_assoc, append-nil, Map,
  empty_map, insert, delete,
}
use shellman.Hub.{
  split_from, split_utf8_payload, bytes_or_none, pending_of, put_pending, consume_utf8_chunk,
}
use shellman.Hub.Runes.{
  continued, IsWaiting, split_from-whole, split_from-append, split_from-IsWaiting,
}

split_utf8_payload-append :
    (s t : List ℕ) → split_utf8_payload (s ++ t) ≡ continued t (split_utf8_payload s)
unfolding split_utf8_payload
split_utf8_payload-append s t = split_from-append 0 s t (omega arith)

pending_of-put_pending :
    (target other : Text) (rest : List ℕ) (m : Map (List ℕ))
    → pending_of (put_pending target rest m) other
      ≡ (if text_eq target other then rest else pending_of m other)
unfolding pending_of put_pending insert delete bytes_or_none
pending_of-put_pending target other [] m = ground arith
pending_of-put_pending target other (c ∷ s) m = ground arith

-- What is emitted for a target in a sequence of chunks, each with its target, and the bytes that
-- wait in the end.
unfoldable pub run_chunks : Map (List ℕ) → Text → List (Text × List ℕ) → List ℕ × List ℕ
run_chunks m target [] = ([], pending_of m target)
run_chunks m target ((t, chunk) ∷ calls) =
    let r = consume_utf8_chunk m t chunk in
    let rest = run_chunks r.0 target calls in
    if text_eq t target then (r.1 ++ rest.0, rest.1) else rest

-- All the output of a target.
unfoldable pub output_of : Text → List (Text × List ℕ) → List ℕ
output_of target [] = []
output_of target ((t, chunk) ∷ calls) =
    let rest = output_of target calls in if text_eq t target then chunk ++ rest else rest

pending_of-consume_utf8_chunk :
    (m : Map (List ℕ)) (t other : Text) (chunk : List ℕ)
    → pending_of (consume_utf8_chunk m t chunk).0 other ≡ (
        if text_eq t other
        then (split_utf8_payload (pending_of m t ++ chunk)).1
        else pending_of m other)
unfolding consume_utf8_chunk
pending_of-consume_utf8_chunk m t other chunk = pending_of-put_pending t other _ m

module _ (m : Map (List ℕ)) (target : Text) (chunk rest : List ℕ) where
  abbrev next_pending : Map (List ℕ)
  next_pending = (consume_utf8_chunk m target chunk).0

  pending_after :
      pending_of next_pending target ≡ (split_utf8_payload (pending_of m target ++ chunk)).1
  pending_after =
      pending_of-consume_utf8_chunk m target target chunk
      ∙ ap
          (λ b.
            if b
            then (split_utf8_payload (pending_of m target ++ chunk)).1
            else pending_of m target)
          (text_eq_refl target)

  pending_stays : IsWaiting (pending_of next_pending target)
  unfolding split_utf8_payload
  pending_stays =
      subst IsWaiting (sym pending_after) (split_from-IsWaiting 0 (pending_of m target ++ chunk))

  chunk_here :
      let q = split_utf8_payload (pending_of next_pending target ++ rest) in
      ((consume_utf8_chunk m target chunk).1 ++ q.0, q.1)
      ≡ split_utf8_payload (pending_of m target ++ (chunk ++ rest))
  unfolding split_utf8_payload consume_utf8_chunk
  chunk_here =
      ap
        (λ (p : List ℕ). (
          (split_from 0 (pending_of m target ++ chunk)).0 ++ (split_from 0 (p ++ rest)).0,
          (split_from 0 (p ++ rest)).1,
        ))
        pending_after
      ∙ sym (split_from-append 0 (pending_of m target ++ chunk) rest (omega arith))
      ∙ ap (split_from 0) (append_assoc (pending_of m target) chunk rest)

run_chunks-continued :
    (m : Map (List ℕ)) (target : Text) (calls : List (Text × List ℕ))
    → IsWaiting (pending_of m target)
    → run_chunks m target calls ≡ split_utf8_payload (pending_of m target ++ output_of target calls)
unfolding run_chunks output_of split_utf8_payload
run_chunks-continued m target [] h =
    sym (ap (split_from 0) (append-nil (pending_of m target)) ∙ h.1)
run_chunks-continued m target ((t, chunk) ∷ calls) h = elim (Bool-cases (text_eq t target)) [
  | inl e ↦ rw e (
      subst
        (λ u.
          let r = consume_utf8_chunk m u chunk in
          let q = run_chunks r.0 target calls in
          (r.1 ++ q.0, q.1)
          ≡ split_utf8_payload (pending_of m target ++ (chunk ++ output_of target calls)))
        (sym ((text_eq_iff t target).0 e))
        (ap (λ (q : List ℕ × List ℕ). ((consume_utf8_chunk m target chunk).1 ++ q.0, q.1))
            (run_chunks-continued (next_pending m target chunk []) target calls
              (pending_stays m target chunk []))
          ∙ chunk_here m target chunk (output_of target calls)))
  | inr e ↦
      let same =
        pending_of-consume_utf8_chunk m t target chunk
        ∙ ap
            (λ b.
              if b then (split_utf8_payload (pending_of m t ++ chunk)).1 else pending_of m target)
            e in
      rw e (
        run_chunks-continued (consume_utf8_chunk m t chunk).0 target calls
          (subst IsWaiting (sym same) h)
        ∙ ap (λ s. split_utf8_payload (s ++ output_of target calls)) same)
]

-- However the output of the panes is cut into chunks and mixed: for every target, what is emitted
-- with what waits in the end is all its output, just as splitUTF8Payload cuts it when it comes in
-- one piece; and at most three bytes wait.
pub run_chunks-split_utf8_payload :
    (target : Text) (calls : List (Text × List ℕ))
    → let r = run_chunks empty_map target calls in
      (r ≡ split_utf8_payload (output_of target calls))
      × (r.0 ++ r.1 ≡ output_of target calls)
      × (length r.1 ≤ 3)
unfolding split_utf8_payload pending_of split_from
run_chunks-split_utf8_payload target calls =
    let e = run_chunks-continued empty_map target calls (omega arith, refl) in
    (
      e,
      ap (λ (r : List ℕ × List ℕ). r.0 ++ r.1) e ∙ split_from-whole 0 (output_of target calls),
      subst (λ (r : List ℕ × List ℕ). length r.1 ≤ 3) (sym e)
          (split_from-IsWaiting 0 (output_of target calls)).0,
    )
