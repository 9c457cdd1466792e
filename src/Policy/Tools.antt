-- ===== src/Policy/Tools.antt =====
-- The tools that a policy leaves.
use mathlib.Core.Path.{ap₂}
use shellman.Base.{
  ◌↔◌, ◌⊎◌, has_prefix, refl, sym, ◌∙◌, codes, ==_iff, ◌≡◌, inl, inr, ap, Bool, true, false, not,
  ◌&&◌, ◌||◌, List, [], ◌∷◌, ◌++◌, arith, Text, text_eq, text_eq_iff, is_empty, trim_space, filter,
  Bool-cases, mem, IsDistinct,
}
use shellman.Base.{IsDistinct-snoc, mem-append}
use shellman.Policy.{PmToolPolicy, collect, tool_names, is_denied, resolve_allowed_tools}

mem-filter :
    (keep : Text → Bool) (t : Text) (xs : List Text) → mem t (filter keep xs) ≡ (keep t && mem t xs)
unfolding mem
mem-filter keep t [] = ground (arith)
mem-filter keep t (x ∷ xs) = elim (Bool-cases (text_eq x t)) [
  | inl y ↦ ground (arith, mem-filter keep t xs, y, ap keep ((text_eq_iff x t).0 y))
  | inr n ↦ ground (arith, mem-filter keep t xs, n)
]

IsDistinct-filter :
    (keep : Text → Bool) (xs : List Text) → IsDistinct xs → IsDistinct (filter keep xs)
unfolding mem
IsDistinct-filter keep [] d = tt
IsDistinct-filter keep (x ∷ xs) d = elim (Bool-cases (keep x)) [
  | inl y ↦ rw y (ground (arith, mem-filter keep x xs, d.0), IsDistinct-filter keep xs d.1)
  | inr n ↦ rw n (IsDistinct-filter keep xs d.1)
]

-- The names that the profile lists, without the blank ones.
unfoldable pub is_listed : Text → List Text → Bool
is_listed t [] = false
is_listed t (item ∷ items) = (not (is_empty t) && text_eq (trim_space item) t) || is_listed t items

collect-IsDistinct : (out items : List Text) → IsDistinct out → IsDistinct (collect out items)
unfolding collect
collect-IsDistinct out [] d = d
collect-IsDistinct out (item ∷ items) d =
    elim (Bool-cases (is_empty (trim_space item) || mem (trim_space item) out)) [
      | inl y ↦ rw y (collect-IsDistinct out items d)
      | inr n ↦ rw n (
          collect-IsDistinct (out ++ trim_space item ∷ []) items
            (IsDistinct-snoc out (trim_space item) d (ground (arith))))
    ]

mem-collect :
    (out items : List Text) (t : Text)
    → mem t (collect out items) ≡ (mem t out || is_listed t items)
unfolding collect is_listed mem
mem-collect out [] t = ground (arith)
mem-collect out (item ∷ items) t = elim (Bool-cases (text_eq (trim_space item) t)) [
  | inl y ↦ ground (
    arith,
    mem-collect out items t,
    mem-collect (out ++ trim_space item ∷ []) items t,
    mem-append t out (trim_space item ∷ []),
    y,
    ap (λ k. mem k out) ((text_eq_iff (trim_space item) t).0 y),
    ap is_empty ((text_eq_iff (trim_space item) t).0 y),
  )
  | inr n ↦ ground (
    arith,
    mem-collect out items t,
    mem-collect (out ++ trim_space item ∷ []) items t,
    mem-append t out (trim_space item ∷ []),
    n,
  )
]

open_policy :
    (policy : PmToolPolicy) (t : Text)
    → (not policy.deny_write && not policy.deny_network && not policy.deny_planning) ≡ true
    → is_denied policy t ≡ false
unfolding is_denied
open_policy policy t h = ground (arith)

mem-resolve_allowed_tools :
    (tools : List Text) (policy : PmToolPolicy) (t : Text)
    → IsDistinct (resolve_allowed_tools tools policy)
      × (mem t (resolve_allowed_tools tools policy)
          ≡ (is_listed t tools && not (is_denied policy t)))
unfolding resolve_allowed_tools tool_names mem
mem-resolve_allowed_tools tools policy t =
    let distinct = collect-IsDistinct [] tools tt in
    elim (Bool-cases
      (not policy.deny_write && not policy.deny_network && not policy.deny_planning)) [
        | inl y ↦ rw y (distinct, ground (arith, mem-collect [] tools t, open_policy policy t y))
        | inr n ↦ rw n (
          IsDistinct-filter (λ name. not (is_denied policy name)) (collect [] tools) distinct,
          ground (
            arith,
            mem-filter (λ name. not (is_denied policy name)) t (collect [] tools),
            mem-collect [] tools t,
          ),
        )
      ]

-- A name that the profile lists: it is not blank, and an item is the name with white space around.
abbrev pub IsItem : Text → List Text → Type 0
IsItem t [] = ⊥
IsItem t (item ∷ items) = (trim_space item ≡ t) ⊎ IsItem t items

-- What a policy denies: without writes, the two names of tools that write; without the network, the
-- names that start with `web.`; without planning, the two names of tools that plan.
abbrev pub IsDenied : PmToolPolicy → Text → Type 0
IsDenied policy t =
    (((policy.deny_write ≡ true) × ((t ≡ codes "apply_patch") ⊎ (t ≡ codes "write_stdin")))
      ⊎ ((policy.deny_network ≡ true) × ((rest : Text) × (t ≡ codes "web." ++ rest))))
    ⊎ ((policy.deny_planning ≡ true)
        × ((t ≡ codes "update_plan") ⊎ (t ≡ codes "request_user_input")))

is_listed-IsItem :
    (t : Text) (items : List Text)
    → (is_listed t items ≡ true) ↔ ((is_empty t ≡ false) × IsItem t items)
unfolding is_listed
is_listed-IsItem t [] = (λ e. cc, λ h. absurd h.1)
is_listed-IsItem t (item ∷ items) =
    let rest = is_listed-IsItem t items in
    let same = text_eq_iff (trim_space item) t in
    (
      λ e. elim (Bool-cases (is_listed t items)) [
        | inl y ↦ let h = rest.0 y in (h.0, inr h.1)
        | inr n ↦ (ground (arith, e, n), inl (same.0 (ground (arith, e, n))))
      ],
      λ h. elim h.1 [
        | inl e ↦ ground (arith, same.1 e, h.0)
        | inr k ↦ ground (arith, rest.1 (h.0, k))
      ],
    )

has_prefix-rest : (p s : Text) → has_prefix p s ≡ true → (rest : Text) × (s ≡ p ++ rest)
unfolding has_prefix
has_prefix-rest [] s h = (s, refl)
has_prefix-rest (a ∷ p) [] h = cc
has_prefix-rest (a ∷ p) (b ∷ s) h =
    let r = has_prefix-rest p s (ground (arith, h)) in
    (r.0, ap₂ (λ c cs. c ∷ cs) (sym ((==_iff a b).0 (ground (arith, h)))) r.1)

has_prefix_append : (p rest : Text) → has_prefix p (p ++ rest) ≡ true
unfolding has_prefix
has_prefix_append [] rest = refl
has_prefix_append (a ∷ p) rest = ground (arith, has_prefix_append p rest)

has_prefix_iff : (p s : Text) → (has_prefix p s ≡ true) ↔ ((rest : Text) × (s ≡ p ++ rest))
has_prefix_iff p s = (has_prefix-rest p s, λ h. ap (has_prefix p) h.1 ∙ has_prefix_append p h.0)

or_both :
    {P Q : Type 0} (a b : Bool) → (a ≡ true) ↔ P → (b ≡ true) ↔ Q → ((a || b) ≡ true) ↔ (P ⊎ Q)
or_both true b h k = (λ e. inl (h.0 refl), λ e. refl)
or_both false b h k =
    (λ e. inr (k.0 e), λ e. elim e [ inl x ↦ absurd (cc (h.1 x)) | inr y ↦ k.1 y ])

and_both :
    {P Q : Type 0} (a b : Bool) → (a ≡ true) ↔ P → (b ≡ true) ↔ Q → ((a && b) ≡ true) ↔ (P × Q)
and_both true b h k = (λ e. (h.0 refl, k.0 e), λ e. k.1 e.1)
and_both false b h k = (λ e. cc, λ e. h.1 e.0)

same : (b : Bool) → (b ≡ true) ↔ (b ≡ true)
same b = (λ e. e, λ e. e)

is_denied-IsDenied :
    (policy : PmToolPolicy) (t : Text) → (is_denied policy t ≡ true) ↔ IsDenied policy t
unfolding is_denied
is_denied-IsDenied policy t =
    or_both _ _
      (or_both _ _
        (and_both policy.deny_write _ (same policy.deny_write)
          (or_both _ _ (text_eq_iff t (codes "apply_patch")) (text_eq_iff t (codes "write_stdin"))))
        (and_both policy.deny_network _ (same policy.deny_network)
          (has_prefix_iff (codes "web.") t)))
      (and_both policy.deny_planning _ (same policy.deny_planning) (
        or_both _ _ (text_eq_iff t (codes "update_plan"))
          (text_eq_iff t (codes "request_user_input"))))

-- The allowed tools are, each once, just the names that are not blank, that an item of the profile
-- names with white space around it, and that the policy does not deny: without writes it denies
-- `apply_patch` and `write_stdin`, without the network the names that start with `web.`, and without
-- planning `update_plan` and `request_user_input`.
pub resolve_allowed_tools-IsDistinct :
    (tools : List Text) (policy : PmToolPolicy) (t : Text)
    → IsDistinct (resolve_allowed_tools tools policy)
      × ((mem t (resolve_allowed_tools tools policy) ≡ true)
          ↔ (((is_empty t ≡ false) × IsItem t tools) × (IsDenied policy t → ⊥)))
resolve_allowed_tools-IsDistinct tools policy t =
    let h = mem-resolve_allowed_tools tools policy t in
    let d = is_denied-IsDenied policy t in
    let l = is_listed-IsItem t tools in
    (
      h.0,
      (
        λ e. (l.0 (ground (arith, e, h.1)), λ k. ground (arith, d.1 k, e, h.1)),
        λ k. elim (Bool-cases (is_denied policy t)) [
          | inl y ↦ absurd (k.1 (d.0 y))
          | inr n ↦ h.1 ∙ ground (arith, n, l.1 k.0)
        ],
      ),
    )
