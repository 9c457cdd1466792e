-- ===== src/Examples/Policies.antt =====
-- Examples of cli/internal/localapi's policies: tools, roles and modes.
use shellman.Base.{◌↔◌, is_empty, ◌≡◌, true, false, codes, mem, IsDistinct}
use shellman.Policy.{PmToolPolicy, resolve_allowed_tools, codex_parity_tools}
use shellman.Policy.Tools.{IsItem, IsDenied, resolve_allowed_tools-IsDistinct}

abbrev read_only : PmToolPolicy
read_only = record { deny_write = true; deny_network = false; deny_planning = false }

resolve_allowed_tools-IsDistinct_example :
    IsDistinct (resolve_allowed_tools codex_parity_tools read_only)
    × ((mem (codes "apply_patch") (resolve_allowed_tools codex_parity_tools read_only) ≡ true) ↔ (
        ((is_empty (codes "apply_patch") ≡ false) × IsItem (codes "apply_patch") codex_parity_tools)
        × (IsDenied read_only (codes "apply_patch") → ⊥)))
resolve_allowed_tools-IsDistinct_example =
    resolve_allowed_tools-IsDistinct codex_parity_tools read_only (codes "apply_patch")
