-- ===== src/Base/Maps.antt =====
-- A Go map keyed by a text.
use mathlib.Core.Path.{◌≡◌}
use mathlib.Core.Bool.{Bool}
use mathlib.Core.Option.{Option, none, some}
use native.Mathlib.Omega.{arith}
use shellman.Base.Tests.{if◌then◌else◌}
use shellman.Base.Strings.{Text, text_eq, text_eq_iff}

abbrev pub Map {ℓ} : Type ℓ → Type ℓ
Map V = Text → Option V

module _ {ℓ} {V : Type ℓ} where
  abbrev pub empty_map : Map V
  empty_map k = none

  -- `m[k] = v`.
  unfoldable pub insert : Text → V → Map V → Map V
  insert k v m j = if text_eq k j then some v else m j

  -- `delete(m, k)`.
  unfoldable pub delete : Text → Map V → Map V
  delete k m j = if text_eq k j then none else m j

  keep_value : (V → Bool) → Option V → Option V
  keep_value keep none = none
  keep_value keep (some v) = if keep v then some v else none

  -- `for k, v := range m { if !keep(k, v) { delete(m, k) } }`.
  unfoldable pub retain : (Text → V → Bool) → Map V → Map V
  unfolding keep_value
  retain keep m k = keep_value (keep k) (m k)

  pub insert_self : (k : Text) (v : V) (m : Map V) → insert k v m k ≡ some v
  unfolding insert
  insert_self k v m = ground (arith, text_eq_iff k k)

  pub delete_self : (k : Text) (m : Map V) → delete k m k ≡ none
  unfolding delete
  delete_self k m = ground (arith, text_eq_iff k k)
