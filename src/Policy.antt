-- ===== src/Policy.antt =====
-- Which tools an agent may use, and the words for roles and modes: cli/internal/localapi's
-- pm_tool_profile.go, task_role.go and sidecar_mode.go, and cli/internal/agentloopadapter's
-- policy_resolver.go. A Go set of seen names is the list of the names already taken.
use shellman.Base.{
  find, ◌+◌, ◌⊎◌, inl, inr, Bool, not, ◌&&◌, ◌||◌, List, [], ◌∷◌, ◌++◌, Option, none, some,
  if◌then◌else◌, Text, codes, text_eq, is_empty, trim_space, filter, mem,
}
use shellman.Base.{to_lower, has_prefix}
pub mod Tools

pub record PmToolPolicy : Type 0 where
  pub deny_write : Bool
  pub deny_network : Bool
  pub deny_planning : Bool

-- The loop that both tool_names and normalize_tool_names run.
unfoldable pub collect : List Text → List Text → List Text
unfolding mem
collect out [] = out
collect out (item ∷ items) =
    let name = trim_space item in
    collect (if is_empty name || mem name out then out else out ++ name ∷ []) items

-- PMToolProfile.ToolNames.
unfoldable pub tool_names : List Text → List Text
unfolding collect
tool_names tools = collect [] tools

unfoldable pub normalize_tool_names : List Text → List Text
unfolding collect
normalize_tool_names items = collect [] items

unfoldable pub is_denied : PmToolPolicy → Text → Bool
unfolding has_prefix
is_denied policy name =
    (policy.deny_write
      && (text_eq name (codes "apply_patch") || text_eq name (codes "write_stdin")))
    || (policy.deny_network && has_prefix (codes "web.") name)
    || (policy.deny_planning
        && (text_eq name (codes "update_plan") || text_eq name (codes "request_user_input")))

unfoldable pub resolve_allowed_tools : List Text → PmToolPolicy → List Text
unfolding is_denied tool_names
resolve_allowed_tools tools policy =
    if not policy.deny_write && not policy.deny_network && not policy.deny_planning
    then tool_names tools
    else filter (λ name. not (is_denied policy name)) (tool_names tools)

abbrev pub codex_parity_tools : List Text
codex_parity_tools =
    codes "exec_command"
    ∷ codes "write_stdin"
    ∷ codes "apply_patch"
    ∷ codes "update_plan"
    ∷ codes "view_image"
    ∷ codes "request_user_input"
    ∷ codes "multi_tool_use.parallel"
    ∷ codes "web.search_query"
    ∷ codes "web.open"
    ∷ codes "web.click"
    ∷ codes "web.find"
    ∷ codes "web.screenshot"
    ∷ codes "web.image_query"
    ∷ codes "web.finance"
    ∷ codes "web.weather"
    ∷ codes "web.sports"
    ∷ codes "web.time"
    ∷ []

unfoldable pub normalize_sidecar_mode : Text → Text
unfolding to_lower
normalize_sidecar_mode mode =
    let m = trim_space (to_lower mode) in
    if text_eq m (codes "advisor") || is_empty m
    then codes "advisor"
    else if text_eq m (codes "observer")
    then codes "observer"
    else if text_eq m (codes "autopilot")
    then codes "autopilot"
    else []

unfoldable pub normalize_task_role : Text → Text
unfolding to_lower
normalize_task_role role =
    let r = trim_space (to_lower role) in
    if is_empty r || text_eq r (codes "full")
    then codes "full"
    else if text_eq r (codes "planner")
    then codes "planner"
    else if text_eq r (codes "executor")
    then codes "executor"
    else []

unfoldable pub valid_sidecar_mode : Text → Bool
unfolding normalize_sidecar_mode
valid_sidecar_mode mode = not (is_empty (normalize_sidecar_mode mode))
