-- ===== src/Patch/Paths.antt =====
-- The paths of src-tauri/src/coding_patch.rs: `validate_relative_path`, `resolve_scoped_target` and
-- `normalize_relative`, and the directories above a normalized path.
use open_mind_ai.Base.{
  Bool, true, false, not, ◌&&◌, ◌||◌, Option, none, some, List, [], ◌∷◌, ◌++◌, ◌==◌, if◌then◌else◌,
  any,
}
use open_mind_ai.Base.Text.{Text, text, text_eq, trim}

-- `std::path::Component`.
pub data Component : Type 0 where
  normal_component : Text → Component
  cur_dir parent_dir root_dir prefix_component : Component

-- The parts of a path by the standard library, and whether it resolves inside the workspace with no
-- symbolic link.
pub record Platform : Type 0 where
  pub components : Text → List Component
  pub is_absolute : Text → Bool
  pub in_scope : Text → Bool

abbrev pub transaction_dir : Text
transaction_dir = text ".openmindai-patch-transactions"

abbrev pub component_allowed : Component → Bool
component_allowed (normal_component value) = not (text_eq value transaction_dir)
component_allowed cur_dir = true
component_allowed parent_dir = false
component_allowed root_dir = false
component_allowed prefix_component = false

abbrev pub components_allowed : List Component → Bool
components_allowed [] = true
components_allowed (c ∷ cs) = component_allowed c && components_allowed cs

abbrev pub normal_names : List Component → List Text
normal_names [] = []
normal_names (normal_component value ∷ cs) = value ∷ normal_names cs
normal_names (cur_dir ∷ cs) = normal_names cs
normal_names (parent_dir ∷ cs) = normal_names cs
normal_names (root_dir ∷ cs) = normal_names cs
normal_names (prefix_component ∷ cs) = normal_names cs

-- `join("/")`.
abbrev pub join_path : List Text → Text
join_path [] = []
join_path (x ∷ []) = x
join_path (x ∷ (y ∷ ys)) = x ++ (47 ∷ join_path (y ∷ ys))

abbrev pub directories_from : Text → Text → List Text
directories_from before [] = []
directories_from before (c ∷ rest) =
    let further = directories_from (before ++ (c ∷ [])) rest in
    if c == 47 then before ∷ further else further

-- The directories above a normalized path, from the top.
abbrev pub directories_of : Text → List Text
directories_of path = directories_from [] path

-- A path that is the same or stands below a directory.
abbrev pub is_below : Text → Text → Bool
is_below dir path = text_eq path dir || any (text_eq dir) (directories_of path)

module _ (os : Platform) where
  open os use {components, is_absolute, in_scope}

  -- The trimmed path, or `none` for an error.
  abbrev pub validate_relative_path : Text → Option Text
  validate_relative_path raw =
      let path = trim raw in
      if text_eq path [] || any (λ c. c == 0) path
      then none
      else if is_absolute path
      then none
      else if components_allowed (components path)
      then some path
      else none

  abbrev pub normalize_relative : Text → Text
  normalize_relative path = join_path (normal_names (components path))

  abbrev pub target_of : Option Text → Option Text
  target_of none = none
  target_of (some path) = if in_scope path then some (normalize_relative path) else none

  -- `resolve_scoped_target` after `validate_relative_path`: the normalized path of the target.
  abbrev pub resolve_target : Text → Option Text
  resolve_target raw = target_of (validate_relative_path raw)
