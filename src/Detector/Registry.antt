-- ===== src/Detector/Registry.antt =====
-- cli/internal/progdetector/registry.go and internal/programadapter/types.go.
use shellman.Base.{
  ℕ, Bool, false, List, [], ◌∷◌, ◌++◌, Option, none, some, if◌then◌else◌, Text, is_empty,
  trim_space, Map, empty_map, insert, ◌+◌,
}
pub mod Invariant

pub record RuntimeState : Type 0 where
  pub current_command : Text
  pub current_binary : Text
  pub current_args : List Text
  pub viewport_text : Text
  pub cursor_visible : Bool

-- A delay is in milliseconds.
pub record PromptStep : Type 0 where
  pub input : Text
  pub delay : ℕ
  pub timeout_ms : ℕ

-- `ProgramAdapter`. A result `none` is an error. `IsAvailable` asks the host and is left out.
pub record Detector : Type 0 where
  pub program_id : Text
  pub match_current_command : Text → Bool
  pub match_runtime_state : RuntimeState → Bool
  pub has_exited_mode : RuntimeState → Option Bool
  pub build_input_prompt_steps : Text → Option (List PromptStep)

pub record Registry : Type 0 where
  pub by_id : Map Detector
  pub order : List Text

unfoldable pub new_registry : Registry
new_registry = record { by_id = empty_map; order = [] }

pub data RegisterError : Type 0 where
  program_id_required : RegisterError
  already_registered : Text → RegisterError

pub data Registered : Type 0 where
  registered : Registry → Registered
  refused : RegisterError → Registered

add_new : Registry → Text → Detector → Option Detector → Registered
add_new r id detector (some _) = refused (already_registered id)
add_new r id detector none =
    registered (record { by_id = insert id detector r.by_id; order = r.order ++ id ∷ [] })

unfoldable pub register : Registry → Detector → Registered
unfolding add_new
register r detector =
    if is_empty (trim_space detector.program_id)
    then refused program_id_required
    else add_new r (trim_space detector.program_id) detector
        (r.by_id (trim_space detector.program_id))

-- The registry behind a call that may be refused.
unfoldable pub registry_after : Registry → Registered → Registry
registry_after r (registered s) = s
registry_after r (refused e) = r

unfoldable pub get : Registry → Text → Option Detector
get r program_id =
    if is_empty (trim_space program_id) then none else r.by_id (trim_space program_id)

match_or : Option Detector → RuntimeState → Option Detector → Option Detector
match_or none state later = later
match_or (some d) state later = if d.match_runtime_state state then some d else later

unfoldable pub detect_in : Map Detector → List Text → RuntimeState → Option Detector
unfolding match_or
detect_in by_id [] state = none
detect_in by_id (id ∷ ids) state = match_or (by_id id) state (detect_in by_id ids state)

unfoldable pub detect_by_state : Registry → RuntimeState → Option Detector
unfolding detect_in
detect_by_state r state = detect_in r.by_id r.order state

unfoldable pub detect_by_current_command : Registry → Text → Option Detector
unfolding detect_by_state
detect_by_current_command r current_command = detect_by_state r (record {
  current_command = current_command;
  current_binary = [];
  current_args = [];
  viewport_text = [];
  cursor_visible = false;
})

list_or : Option Detector → List Detector → List Detector
list_or none later = later
list_or (some d) later = d ∷ later

unfoldable pub list_in : Map Detector → List Text → List Detector
unfolding list_or
list_in by_id [] = []
list_in by_id (id ∷ ids) = list_or (by_id id) (list_in by_id ids)

unfoldable pub list : Registry → List Detector
unfolding list_in
list r = list_in r.by_id r.order
