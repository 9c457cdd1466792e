-- ===== src/TaskState/Recent.antt =====
-- trimToRecentLines of cli/cmd/shellman/runtime_task_state_actor.go: what is stored of a long
-- snapshot.
use shellman.Base.{
  ℕ, zero, suc, ◌+◌, ◌-◌, ◌≤◌, ◌<◌, ◌≡◌, ◌⊎◌, inl, inr, refl, sym, ap, ◌∙◌, false, ◌||◌, List, [],
  ◌∷◌, ◌++◌, Option, none, some, arith, leb, ◌==◌, if◌then◌else◌, Text, is_empty, drop, length,
  length-drop, All, Bool-cases, Option-cases, append_assoc, append-nil,
}

unfoldable pub cons_line : ℕ → List Text → List Text
cons_line c [] = (c ∷ []) ∷ []
cons_line c (l ∷ ls) = (c ∷ l) ∷ ls

-- `strings.Split(s, "\n")` and `strings.Join(lines, "\n")`.
unfoldable pub split_lines : Text → List Text
unfolding cons_line
split_lines [] = [] ∷ []
split_lines (c ∷ s) = let rest = split_lines s in if c == b'\n' then [] ∷ rest else cons_line c rest

unfoldable pub join_lines : List Text → Text
join_lines [] = []
join_lines (l ∷ []) = l
join_lines (l ∷ m ∷ ls) = l ++ b'\n' ∷ join_lines (m ∷ ls)

unfoldable pub cons_some : ℕ → Option Text → Option Text
cons_some c none = none
cons_some c (some s) = some (c ∷ s)

-- The text before a newline at its end, if it has one.
unfoldable pub trim_newline : Text → Option Text
unfolding cons_some
trim_newline [] = none
trim_newline (c ∷ []) = if c == b'\n' then some [] else none
trim_newline (c ∷ d ∷ s) = cons_some c (trim_newline (d ∷ s))

unfoldable pub recent : Text → ℕ → Text
unfolding split_lines join_lines
recent working max_lines =
    let lines = split_lines working in
    if leb (length lines) max_lines
    then working
    else join_lines (drop (length lines - max_lines) lines)

unfoldable pub recent_of : Text → ℕ → Option Text → Text
unfolding recent
recent_of text max_lines none = recent text max_lines
recent_of text max_lines (some working) =
    if is_empty working then text else recent working max_lines ++ b'\n' ∷ []

unfoldable pub trim_to_recent_lines : Text → ℕ → Text
unfolding recent_of trim_newline
trim_to_recent_lines text max_lines =
    if max_lines == 0 || is_empty text then text else recent_of text max_lines (trim_newline text)

unfoldable pub newlines : Text → ℕ
newlines [] = 0
newlines (c ∷ s) = let rest = newlines s in if c == b'\n' then suc rest else rest

newlines-append : (s t : Text) → newlines (s ++ t) ≡ newlines s + newlines t
unfolding newlines
newlines-append [] t = omega arith
newlines-append (c ∷ s) t = ground (arith, newlines-append s t)

length-cons_line : (c : ℕ) (ls : List Text) → 0 < length ls → length (cons_line c ls) ≡ length ls
unfolding cons_line
length-cons_line c [] h = omega (arith, h)
length-cons_line c (l ∷ ls) h = refl

length-split_lines : (s : Text) → length (split_lines s) ≡ suc (newlines s)
unfolding split_lines newlines cons_line
length-split_lines [] = refl
length-split_lines (c ∷ s) =
    ground (arith, length-split_lines s, length-cons_line c (split_lines s))

join_lines-cons_line : (c : ℕ) (ls : List Text) → join_lines (cons_line c ls) ≡ c ∷ join_lines ls
unfolding join_lines cons_line
join_lines-cons_line c [] = refl
join_lines-cons_line c (l ∷ []) = refl
join_lines-cons_line c (l ∷ m ∷ ls) = refl

join_lines-nil : (ls : List Text) → 0 < length ls → join_lines ([] ∷ ls) ≡ b'\n' ∷ join_lines ls
unfolding join_lines
join_lines-nil [] h = ground (arith, h)
join_lines-nil (m ∷ ls) h = refl

join_lines-split_lines : (s : Text) → join_lines (split_lines s) ≡ s
unfolding split_lines join_lines
join_lines-split_lines [] = refl
join_lines-split_lines (c ∷ s) = elim (Bool-cases (c == b'\n')) [
  | inl y ↦ rw y (
      join_lines-nil (split_lines s) (omega (arith, length-split_lines s))
      ∙ (ap (λ t. b'\n' ∷ t) (join_lines-split_lines s) ∙ ap (λ d. d ∷ s) (ground (arith, y))))
  | inr n ↦
      rw n (join_lines-cons_line c (split_lines s) ∙ ap (λ t. c ∷ t) (join_lines-split_lines s))
]

-- The lines have no newline in them.
abbrev IsLines : List Text → Type 0
IsLines ls = All (λ l. newlines l ≡ 0) ls

cons_line-IsLines :
    (c : ℕ) (ls : List Text) → (c == b'\n') ≡ false → IsLines ls → IsLines (cons_line c ls)
unfolding cons_line newlines
cons_line-IsLines c [] h a = (ground (arith, h), tt)
cons_line-IsLines c (l ∷ ls) h a = (ground (arith, h, a.0), a.1)

split_lines-IsLines : (s : Text) → IsLines (split_lines s)
unfolding split_lines newlines cons_line
split_lines-IsLines [] = (refl, tt)
split_lines-IsLines (c ∷ s) = elim (Bool-cases (c == b'\n')) [
  | inl y ↦ rw y (refl, split_lines-IsLines s)
  | inr n ↦ rw n (cons_line-IsLines c (split_lines s) n (split_lines-IsLines s))
]

drop-IsLines : (n : ℕ) (ls : List Text) → IsLines ls → IsLines (drop n ls)
drop-IsLines zero ls a = a
drop-IsLines (suc n) [] a = tt
drop-IsLines (suc n) (l ∷ ls) a = drop-IsLines n ls a.1

newlines-join_lines : (ls : List Text) → IsLines ls → newlines (join_lines ls) ≡ length ls - 1
unfolding join_lines newlines
newlines-join_lines [] a = omega arith
newlines-join_lines (l ∷ []) a = omega (arith, a.0)
newlines-join_lines (l ∷ m ∷ ls) a =
    ground (
      arith,
      newlines-append l (b'\n' ∷ join_lines (m ∷ ls)),
      newlines-join_lines (m ∷ ls) a.1,
      a.0,
    )

join_lines-drop :
    (n : ℕ) (ls : List Text) → (p : Text) × (join_lines ls ≡ p ++ join_lines (drop n ls))
unfolding join_lines
join_lines-drop zero ls = ([], refl)
join_lines-drop (suc n) [] = ([], refl)
join_lines-drop (suc zero) (l ∷ []) = (l, sym (append-nil l))
join_lines-drop (suc (suc n)) (l ∷ []) = (l, sym (append-nil l))
join_lines-drop (suc n) (l ∷ m ∷ ls) =
    let (p, e) = join_lines-drop n (m ∷ ls) in
    (
      l ++ b'\n' ∷ p,
      ap (λ t. l ++ b'\n' ∷ t) e ∙ sym (append_assoc l (b'\n' ∷ p) (join_lines (drop n (m ∷ ls)))),
    )

trim_newline-append : (t w : Text) → trim_newline t ≡ some w → t ≡ w ++ b'\n' ∷ []
unfolding trim_newline cons_some
trim_newline-append [] w e = cc
trim_newline-append (c ∷ []) w e = ground (arith)
trim_newline-append (c ∷ d ∷ s) w e = elim (Option-cases (trim_newline (d ∷ s))) [
  | inl n ↦ ground (arith, n)
  | inr (v, y) ↦ ground (arith, y, trim_newline-append (d ∷ s) v y)
]

-- The end of a text: all of it, or one with at least the first number of newlines, and in any case
-- at most the second.
pub record Kept (text : Text) (least most : ℕ) (kept : Text) : Type 0 where
  pub start : Text
  pub whole : text ≡ start ++ kept
  pub bounded : newlines kept ≤ most
  pub full : (kept ≡ text) ⊎ (least ≤ newlines kept)

recent-Kept :
    (working : Text) (max_lines : ℕ)
    → Kept working (max_lines - 1) (max_lines - 1) (recent working max_lines)
unfolding recent
recent-Kept working max_lines =
    let lines = split_lines working in
    let k = length lines - max_lines in
    elim (Bool-cases (leb (length lines) max_lines)) [
      | inl y ↦
          rw (recent, y)
            (record {
              start = [];
              whole = refl;
              bounded = ground (arith, length-split_lines working, y);
              full = inl refl;
            })
      | inr n ↦
          let (p, e) = join_lines-drop k lines in
          let cut : newlines (join_lines (drop k lines)) ≡ max_lines - 1 = ground (
            arith,
            n,
            newlines-join_lines (drop k lines) (drop-IsLines k lines (split_lines-IsLines working)),
            length-drop k lines,
          ) in
          rw (recent, n)
            (record {
              start = p;
              whole = sym (join_lines-split_lines working) ∙ e;
              bounded = omega (arith, cut);
              full = inr (omega (arith, cut));
            })
    ]

one_newline : newlines (b'\n' ∷ []) ≡ 1
unfolding newlines
one_newline = refl

positive : (n : ℕ) → 0 < n → (n == 0) ≡ false
positive n h = ground (arith, h)

recent_of-Kept :
    (text : Text) (max_lines : ℕ) (o : Option Text)
    → 0 < max_lines
    → trim_newline text ≡ o
    → Kept text (max_lines - 1) max_lines (recent_of text max_lines o)
unfolding recent_of
recent_of-Kept text max_lines none h e =
    let r = recent-Kept text max_lines in
    record { start = r.start; whole = r.whole; bounded = omega (arith, r.bounded); full = r.full }
recent_of-Kept text max_lines (some []) h e = record {
  start = [];
  whole = refl;
  bounded = rw (trim_newline-append text [] e) (unfold newlines in h);
  full = inl refl;
}
recent_of-Kept text max_lines (some (c ∷ w)) h e =
    let r = recent-Kept (c ∷ w) max_lines in
    record {
      start = r.start;
      whole =
          trim_newline-append text (c ∷ w) e
          ∙ (ap (λ t. t ++ b'\n' ∷ []) r.whole
              ∙ append_assoc r.start (recent (c ∷ w) max_lines) (b'\n' ∷ []));
      bounded =
          ground (
            arith,
            r.bounded,
            newlines-append (recent (c ∷ w) max_lines) (b'\n' ∷ []),
            one_newline,
          );
      full = elim r.full [
        | inl same ↦ inl (ap (λ t. t ++ b'\n' ∷ []) same ∙ sym (trim_newline-append text (c ∷ w) e))
        | inr long ↦ inr (
            omega
              (arith, long, newlines-append (recent (c ∷ w) max_lines) (b'\n' ∷ []), one_newline))
      ];
    }

-- What is stored of a snapshot, for a limit other than 0, is its end, with no more newlines than
-- the limit; and if it is not the whole snapshot, then it has at most one newline less.
pub trim_to_recent_lines-Kept :
    (text : Text) (max_lines : ℕ)
    → 0 < max_lines
    → Kept text (max_lines - 1) max_lines (trim_to_recent_lines text max_lines)
unfolding trim_to_recent_lines
trim_to_recent_lines-Kept [] max_lines h =
    rw (positive max_lines h) (record {
      start = [];
      whole = refl;
      bounded = unfold newlines in omega arith;
      full = inl refl;
    })
trim_to_recent_lines-Kept (c ∷ s) max_lines h =
    rw (positive max_lines h) (recent_of-Kept (c ∷ s) max_lines (trim_newline (c ∷ s)) h refl)
