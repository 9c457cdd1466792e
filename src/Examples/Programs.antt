-- ===== src/Examples/Programs.antt =====
-- Examples of cli/internal/progdetector.
use shellman.Base.{
  ◌≡◌, refl, false, [], ◌∷◌, none, some, if◌then◌else◌, Text, codes, text_eq, trim_space,
}
use shellman.Base.{insert}
use shellman.Detector.Registry.{
  RuntimeState, Registry, new_registry, register, registered, detect_by_state,
}
use shellman.Detector.Registry.Invariant.{new_registry-Inv, detect_by_state-register, or_else}
use shellman.Detector.Programs.{codex}

abbrev showing : Text → RuntimeState
showing command = record {
  current_command = command;
  current_binary = [];
  current_args = [];
  viewport_text = [];
  cursor_visible = false;
}

abbrev one : Registry
one = record {
  by_id = λ id. if text_eq (codes "codex") id then some codex else none;
  order = codes "codex" ∷ [];
}

one-registered : register new_registry codex ≡ registered one
unfolding register new_registry insert trim_space codex
one-registered = refl

detect_by_state-register_example :
    detect_by_state one (showing (codes "codex"))
    ≡ or_else
        (detect_by_state new_registry (showing (codes "codex")))
        (if codex.match_runtime_state (showing (codes "codex")) then some codex else none)
detect_by_state-register_example =
    detect_by_state-register new_registry one codex (showing (codes "codex")) new_registry-Inv
      one-registered
