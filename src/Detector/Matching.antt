-- ===== src/Detector/Matching.antt =====
-- cli/internal/progdetector/matcher.go, and the helpers that the codex, cursor and opencode
-- detectors repeat.
use shellman.Base.{
  Bool, true, false, ◌&&◌, ◌||◌, List, [], ◌∷◌, ◌++◌, ◌==◌, if◌then◌else◌, Text, codes, text_eq,
  is_empty, trim_space, to_lower, contains, fields,
}

first_is : List Text → Text → Bool
first_is [] name = false
first_is (p ∷ _) name = text_eq p name

match_lower : Text → Text → Bool
unfolding first_is
match_lower cmd name =
    if is_empty cmd || is_empty name
    then false
    else (if first_is (fields cmd) name
        then true
        else contains (name ++ codes " (") cmd
          || contains (codes "(" ++ name ++ codes ")") cmd
          || contains (codes "/" ++ name) cmd
          || contains (92 ∷ name) cmd)

unfoldable pub match_program_in_command : Text → Text → Bool
unfolding match_lower
match_program_in_command current_command program_name =
    match_lower (to_lower (trim_space current_command)) (to_lower (trim_space program_name))

-- `filepath.Base` on Unix.
drop_slashes : Text → Text
drop_slashes [] = []
drop_slashes (c ∷ s) =
    let rest = drop_slashes s in if is_empty rest && c == b'/' then [] else c ∷ rest

has_slash : Text → Bool
has_slash [] = false
has_slash (c ∷ s) = (c == b'/') || has_slash s

last_element : Text → Text
unfolding has_slash
last_element [] = []
last_element (c ∷ s) =
    let later = last_element s in if has_slash s then later else (if c == b'/' then s else c ∷ s)

unfoldable pub base : Text → Text
unfolding drop_slashes last_element
base path =
    if is_empty path
    then codes "."
    else (if is_empty (drop_slashes path) then codes "/" else last_element (drop_slashes path))

base_or : Text → Text → Text
base_or name raw = if is_empty name then raw else name

unfoldable pub normalize_program_token : Text → Text
unfolding base base_or
normalize_program_token raw =
    if is_empty (trim_space raw)
    then []
    else to_lower (base_or (trim_space (base (trim_space raw))) (trim_space raw))

first_is_node : List Text → Bool
first_is_node [] = false
first_is_node (p ∷ _) = text_eq (to_lower (trim_space p)) (codes "node")

-- `strings.EqualFold` with `node` is equality up to the case of ASCII letters: no other rune folds
-- to one of its letters.
unfoldable pub is_node_command : Text → Bool
unfolding first_is_node
is_node_command command = first_is_node (fields (trim_space command))
