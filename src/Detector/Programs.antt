-- ===== src/Detector/Programs.antt =====
-- The built-in detectors: cli/internal/progdetector/{antigravity,claude,codex,cursor,opencode}, and
-- the order in which cli/internal/progdetector/builtin registers them.
use shellman.Base.{
  ℕ, Bool, true, false, not, ◌&&◌, ◌||◌, List, [], ◌∷◌, Option, none, some, if◌then◌else◌, Text,
  codes, text_eq, is_empty, trim_space,
}
use shellman.Detector.Matching.{match_program_in_command, normalize_program_token, is_node_command}
use shellman.Detector.Registry.{
  RuntimeState, PromptStep, Detector, Registry, new_registry, register, registry_after,
}

-- The prompt, and the key that submits it after a delay; an empty prompt is an error.
unfoldable pub prompt_steps : Text → ℕ → Text → Option (List PromptStep)
prompt_steps submit_input submit_delay prompt =
    if is_empty (trim_space prompt)
    then none
    else some (
        record { input = trim_space prompt; delay = 0; timeout_ms = 15000 }
        ∷ record { input = submit_input; delay = submit_delay; timeout_ms = 1000 }
        ∷ [])

-- A detector that looks at the command only: antigravity and claude.
unfoldable pub by_command : Text → Detector
by_command program_id = record {
  program_id = program_id;
  match_current_command = λ command. match_program_in_command command program_id;
  match_runtime_state = λ state. match_program_in_command state.current_command program_id;
  has_exited_mode = λ state. some (not (match_program_in_command state.current_command program_id));
  build_input_prompt_steps = prompt_steps (10 ∷ []) 0;
}

unfoldable pub antigravity : Detector
unfolding by_command
antigravity = by_command (codes "antigravity")

unfoldable pub claude : Detector
unfolding by_command
claude = by_command (codes "claude")

any_token : Text → List Text → Bool
any_token name [] = false
any_token name (arg ∷ args) = text_eq (normalize_program_token arg) name || any_token name args

-- The command, the binary or an argument names the program.
unfoldable pub match_state : Text → RuntimeState → Bool
unfolding any_token
match_state program_id state =
    match_program_in_command state.current_command program_id
    || text_eq (normalize_program_token state.current_binary) program_id
    || any_token program_id state.current_args

no_args : List Text → Bool
no_args [] = true
no_args (_ ∷ _) = false

unfoldable pub has_runtime_signature : RuntimeState → Bool
unfolding no_args
has_runtime_signature state =
    if is_empty (normalize_program_token state.current_binary)
    then false
    else (if text_eq (normalize_program_token state.current_binary) (codes "node")
          && no_args state.current_args
        then false
        else true)

unfoldable pub codex_has_exited : RuntimeState → Bool
codex_has_exited state =
    if has_runtime_signature state
    then not (match_state (codes "codex") state)
    else not (is_node_command state.current_command)

unfoldable pub codex : Detector
codex = record {
  program_id = codes "codex";
  match_current_command = λ command. match_program_in_command command (codes "codex");
  match_runtime_state = match_state (codes "codex");
  has_exited_mode = λ state. some (codex_has_exited state);
  build_input_prompt_steps = prompt_steps (13 ∷ []) 50;
}

unfoldable pub cursor_match_command : Text → Bool
cursor_match_command command =
    match_program_in_command command (codes "cursor-agent")
    || match_program_in_command command (codes "cursor")

either_token : List Text → Bool
either_token [] = false
either_token (arg ∷ args) =
    text_eq (normalize_program_token arg) (codes "cursor-agent")
    || text_eq (normalize_program_token arg) (codes "cursor")
    || either_token args

unfoldable pub cursor_match_state : RuntimeState → Bool
unfolding either_token
cursor_match_state state =
    cursor_match_command state.current_command
    || text_eq (normalize_program_token state.current_binary) (codes "cursor-agent")
    || text_eq (normalize_program_token state.current_binary) (codes "cursor")
    || either_token state.current_args

unfoldable pub cursor : Detector
cursor = record {
  program_id = codes "cursor";
  match_current_command = cursor_match_command;
  match_runtime_state = cursor_match_state;
  has_exited_mode = λ state. some (not (cursor_match_state state));
  build_input_prompt_steps = prompt_steps (10 ∷ []) 0;
}

unfoldable pub opencode_has_exited : RuntimeState → Bool
opencode_has_exited state =
    if has_runtime_signature state
    then not (match_state (codes "opencode") state)
    else if match_program_in_command state.current_command (codes "opencode")
    then false
    else not (is_node_command state.current_command)

unfoldable pub opencode : Detector
opencode = record {
  program_id = codes "opencode";
  match_current_command = λ command. match_program_in_command command (codes "opencode");
  match_runtime_state = match_state (codes "opencode");
  has_exited_mode = λ state. some (opencode_has_exited state);
  build_input_prompt_steps = prompt_steps (13 ∷ []) 0;
}

-- Package initialisation registers them in the order of their import paths.
unfoldable pub register_all : Registry → List Detector → Registry
register_all r [] = r
register_all r (d ∷ ds) = register_all (registry_after r (register r d)) ds

unfoldable pub program_detector_registry : Registry
program_detector_registry =
    register_all new_registry (antigravity ∷ claude ∷ codex ∷ cursor ∷ opencode ∷ [])
