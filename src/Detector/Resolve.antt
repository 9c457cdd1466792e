-- ===== src/Detector/Resolve.antt =====
-- cli/internal/progdetector/state_machine.go: the adapter that is active in a pane, sample by
-- sample.
use shellman.Base.{
  ◌≡◌, ◌⊎◌, inl, inr, refl, Bool, true, false, not, ◌&&◌, List, [], ◌∷◌, Option, none, some, arith,
  if◌then◌else◌, Text, text_eq_iff, is_empty, trim_space, trim_space_idem, mem, Bool-cases,
}
use shellman.Detector.Registry.{RuntimeState, Detector, Registry, get, detect_by_state, detect_in}
use shellman.Detector.Registry.Invariant.{Inv}

trimmed_args : List Text → List Text
trimmed_args [] = []
trimmed_args (arg ∷ args) =
    let rest = trimmed_args args in
    if is_empty (trim_space arg) then rest else trim_space arg ∷ rest

unfoldable pub normalize_runtime_state : RuntimeState → RuntimeState
unfolding trimmed_args
normalize_runtime_state state = record state {
  current_command = trim_space state.current_command;
  current_binary = trim_space state.current_binary;
  current_args = trimmed_args state.current_args;
}

-- Whether a detector says that its program still runs; an error counts as no.
unfoldable pub stays : Option Bool → Bool
stays none = false
stays (some exited) = not exited

unfoldable pub still_active : Option Detector → RuntimeState → Bool
still_active none state = false
still_active (some d) state = stays (d.has_exited_mode state)

unfoldable pub id_of : Option Detector → Text
id_of none = []
id_of (some d) = trim_space d.program_id

-- ResolveActiveAdapterByState.
unfoldable pub resolve_active_adapter_by_state : Registry → Text → RuntimeState → Text
resolve_active_adapter_by_state r active_adapter_id state =
    if not (is_empty (trim_space active_adapter_id))
      && still_active (get r (trim_space active_adapter_id)) (normalize_runtime_state state)
    then trim_space active_adapter_id
    else id_of (detect_by_state r (normalize_runtime_state state))

unfoldable pub resolve_active_adapter : Registry → Text → Text → Text
resolve_active_adapter r active_adapter_id current_command =
    resolve_active_adapter_by_state r active_adapter_id (record {
      current_command = current_command;
      current_binary = [];
      current_args = [];
      viewport_text = [];
      cursor_visible = false;
    })

detected_mem :
    (r : Registry) (xs : List Text) (state : RuntimeState) (d : Detector)
    → Inv r
    → detect_in r.by_id xs state ≡ some d
    → mem (trim_space d.program_id) xs ≡ true
unfolding detect_in mem
detected_mem r [] state d inv e = cc
detected_mem r (x ∷ xs) state d inv e =
    ground
      (arith, detected_mem r xs state d inv, inv.own x d, text_eq_iff x (trim_space d.program_id))

id_of-mem :
    (r : Registry) (o : Option Detector) (state : RuntimeState)
    → Inv r
    → detect_by_state r state ≡ o
    → (id_of o ≡ []) ⊎ (mem (id_of o) r.order ≡ true)
unfolding id_of detect_by_state
id_of-mem r none state inv e = inl refl
id_of-mem r (some d) state inv e = inr (detected_mem r r.order state d inv e)

get-mem :
    (r : Registry) (id : Text) (o : Option Detector) (state : RuntimeState)
    → Inv r
    → get r (trim_space id) ≡ o
    → still_active o state ≡ true
    → mem (trim_space id) r.order ≡ true
unfolding still_active
get-mem r id none state inv e h = cc
get-mem r id (some d) state inv e h =
    unfold get in ground (arith, inv.keys (trim_space id), trim_space_idem id)

-- Whatever the pane shows, the active adapter is none or one that is registered, also when the
-- last one was not.
pub resolve_active_adapter_by_state-mem :
    (r : Registry) (active_adapter_id : Text) (state : RuntimeState)
    → Inv r
    → (resolve_active_adapter_by_state r active_adapter_id state ≡ [])
      ⊎ (mem (resolve_active_adapter_by_state r active_adapter_id state) r.order ≡ true)
resolve_active_adapter_by_state-mem r id state inv =
    elim (Bool-cases (
      not (is_empty (trim_space id))
      && still_active (get r (trim_space id)) (normalize_runtime_state state))) [
        | inl kept ↦
            unfold resolve_active_adapter_by_state in
            rw kept (
              inr (
                get-mem r id (get r (trim_space id)) (normalize_runtime_state state) inv refl
                  (ground arith)))
        | inr left ↦
            unfold resolve_active_adapter_by_state in
            rw left (
              id_of-mem r (detect_by_state r (normalize_runtime_state state))
                (normalize_runtime_state state) inv refl)
      ]
