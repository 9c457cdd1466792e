-- ===== src/Detector/Registry/Invariant.antt =====
-- The registry stays well formed, and finds the detector that was registered first.
use shellman.Base.{
  ◌≡◌, ◌≢◌, inl, inr, refl, sym, ap, ◌∙◌, Bool, true, false, List, [], ◌∷◌, ◌++◌, Option, none,
  some, arith, if◌then◌else◌, Text, text_eq, text_eq_iff, is_empty, empty-cases, trim_space, Map,
  insert, mem, mem-append, IsDistinct, IsDistinct-snoc,
}
use shellman.Detector.Registry.{
  RuntimeState, Detector, Registry, new_registry, register, registered, refused, already_registered,
  get, detect_in, detect_by_state, Registered, program_id_required,
}

abbrev pub is_some : Option Detector → Bool
is_some none = false
is_some (some d) = true

unfoldable pub or_else : Option Detector → Option Detector → Option Detector
or_else none o = o
or_else (some d) o = some d

-- `order` lists the keys of `byID`, each once; a detector stands under its own trimmed id.
pub record Inv (r : Registry) : Type 0 where
  pub keys : (id : Text) → is_some (r.by_id id) ≡ mem id r.order
  pub distinct : IsDistinct r.order
  pub own : (id : Text) (d : Detector) → r.by_id id ≡ some d → trim_space d.program_id ≡ id

is_empty-nil : (s : Text) → is_empty s ≡ true → s ≡ []
is_empty-nil [] h = refl
is_empty-nil (c ∷ s) h = cc

-- A new registry is well formed.
pub new_registry-Inv : Inv new_registry
unfolding new_registry mem
new_registry-Inv = record { keys = λ id. refl; distinct = tt; own = λ id d e. cc }

-- What registering a detector with an id does: a new id is added behind the others, and all other
-- ids keep their detectors; an id that is taken is refused, and an empty one too.
pub data Registers (r : Registry) (d : Detector) : Registered → Type 0 where
  no_id : trim_space d.program_id ≡ [] → Registers r d (refused program_id_required)
  taken :
      (old : Detector)
      → get r d.program_id ≡ some old
      → Registers r d (refused (already_registered (trim_space d.program_id)))
  fresh :
      (s : Registry)
      → Inv s
      → get r d.program_id ≡ none
      → ((id : Text)
          → get s id
            ≡ (if text_eq (trim_space d.program_id) (trim_space id) then some d else get r id))
      → s.order ≡ r.order ++ trim_space d.program_id ∷ []
      → Registers r d (registered s)

module _ (r : Registry) (d : Detector) (inv : Inv r) where
  added : Registry
  added = record {
    by_id = insert (trim_space d.program_id) d r.by_id;
    order = r.order ++ trim_space d.program_id ∷ [];
  }

  added-Inv : r.by_id (trim_space d.program_id) ≡ none → Inv added
  unfolding added insert mem
  added-Inv e = record {
    keys = λ id. ground (arith, inv.keys id, mem-append id r.order (trim_space d.program_id ∷ []));
    distinct =
        IsDistinct-snoc r.order (trim_space d.program_id) inv.distinct
          (sym (inv.keys (trim_space d.program_id)) ∙ ap is_some e);
    own = λ id x h. ground (arith, inv.own id x, text_eq_iff (trim_space d.program_id) id);
  }

  get-added :
      (id : Text)
      → trim_space d.program_id ≢ []
      → get added id
        ≡ (if text_eq (trim_space d.program_id) (trim_space id) then some d else get r id)
  unfolding get added insert
  get-added id h = elim (empty-cases (trim_space id)) [
    | inl e ↦ ground (arith, text_eq_iff (trim_space d.program_id) (trim_space id))
    | inr e ↦ ground arith
  ]

  register_with :
      (o : Option Detector)
      → r.by_id (trim_space d.program_id) ≡ o
      → trim_space d.program_id ≢ []
      → is_empty (trim_space d.program_id) ≡ false
      → Registers r d (register r d)
  unfolding added
  register_with none e h k =
      unfold register in
      rw (k, e) (fresh added (added-Inv e) (unfold get in rw (k, e)) (λ id. get-added id h) refl)
  register_with (some old) e h k =
      unfold register in rw (k, e) (taken old (unfold get in rw (k, e)))

  -- Every call of `Register` on a well-formed registry does just this.
  pub register-Registers : Registers r d (register r d)
  register-Registers = elim (empty-cases (trim_space d.program_id)) [
    | inl e ↦ unfold register in rw e (no_id (is_empty-nil (trim_space d.program_id) e))
    | inr e ↦ register_with (r.by_id (trim_space d.program_id)) refl e.1 e.0
  ]

-- The detector of the first id, in the order of registration, that matches.
detect_in-append :
    (m : Map Detector) (xs ys : List Text) (state : RuntimeState)
    → detect_in m (xs ++ ys) state ≡ or_else (detect_in m xs state) (detect_in m ys state)
unfolding detect_in or_else
detect_in-append m [] ys state = refl
detect_in-append m (x ∷ xs) ys state = ground (arith, detect_in-append m xs ys state)

detect_in-insert :
    (m : Map Detector) (k : Text) (d : Detector) (xs : List Text) (state : RuntimeState)
    → mem k xs ≡ false
    → detect_in (insert k d m) xs state ≡ detect_in m xs state
unfolding detect_in insert mem
detect_in-insert m k d [] state h = refl
detect_in-insert m k d (x ∷ xs) state h =
    ground (arith, detect_in-insert m k d xs state, text_eq_iff k x, text_eq_iff x k)

register_added :
    (r s : Registry) (d : Detector)
    → register r d ≡ registered s
    → (r.by_id (trim_space d.program_id) ≡ none)
      × (s ≡ record {
        by_id = insert (trim_space d.program_id) d r.by_id;
        order = r.order ++ trim_space d.program_id ∷ [];
      })
unfolding register
register_added r s d e = ground arith

detect_in-one :
    (m : Map Detector) (k : Text) (d : Detector) (state : RuntimeState)
    → detect_in (insert k d m) (k ∷ []) state
      ≡ (if d.match_runtime_state state then some d else none)
unfolding detect_in insert
detect_in-one m k d state = ground (arith, text_eq_iff k k)

-- Registering a detector takes no detection away: a state that a registered detector matches is
-- still given to that one, and the new detector gets just the matching states that none had.
pub detect_by_state-register :
    (r s : Registry) (d : Detector) (state : RuntimeState)
    → Inv r
    → register r d ≡ registered s
    → detect_by_state s state
      ≡ or_else (detect_by_state r state) (if d.match_runtime_state state then some d else none)
unfolding detect_by_state
detect_by_state-register r s d state inv e =
    let (new, shape) = register_added r s d e in
    let k = trim_space d.program_id in
    rw shape (
      detect_in-append (insert k d r.by_id) r.order (k ∷ []) state
      ∙ (rw (
        detect_in-insert r.by_id k d r.order state (sym (inv.keys k) ∙ ap is_some new),
        detect_in-one r.by_id k d state,
      )))
