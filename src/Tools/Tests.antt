-- ===== src/Tools/Tests.antt =====
-- Paths that src/millforge/tools/path_policy.py accepts and refuses, and the theorems at them.
use mathlib.Core.List.{Memᴰ}
use millforge.Prelude.{List, [], ◌∷◌, true, false, ◌||◌, ◌≡◌, refl, is_space}
use millforge.Tools.PathPolicy.{
  Text, accepted, refused, chars, starts_with, posix_parts, split_slashes, drop_dots, rstrip_dots,
  before_dot, casefold, windows_reserved_device_names, is_windows_reserved_device_name,
  validate_parts, validate_logical_path,
}
use millforge.Tools.PathPolicy.Components.{
  IsComponent, validate_logical_path-allow_dot, validate_logical_path-IsComponent,
}

abbrev nested : List Text
nested = chars "nested" ∷ chars "LPT10.md" ∷ []

nested_accepted : validate_logical_path (chars "nested//./LPT10.md") false ≡ accepted nested
unfolding validate_logical_path is_space posix_parts split_slashes drop_dots validate_parts
    is_windows_reserved_device_name rstrip_dots before_dot casefold windows_reserved_device_names
nested_accepted = refl

device_refused :
    validate_logical_path (chars "dir/Aux.txt") false
    ≡ refused "path must not use a reserved Windows device name"
unfolding validate_logical_path is_space posix_parts split_slashes drop_dots validate_parts
    is_windows_reserved_device_name rstrip_dots before_dot casefold windows_reserved_device_names
device_refused = refl

traversal_refused :
    validate_logical_path (chars "a/../b") false
    ≡ refused "path must not contain traversal components"
unfolding validate_logical_path is_space posix_parts split_slashes drop_dots validate_parts
    is_windows_reserved_device_name rstrip_dots before_dot casefold windows_reserved_device_names
traversal_refused = refl

-- The current directory has no parts.
dot_accepted : validate_logical_path (chars ".") false ≡ accepted []
unfolding validate_logical_path is_space posix_parts split_slashes drop_dots validate_parts
    is_windows_reserved_device_name rstrip_dots before_dot casefold windows_reserved_device_names
dot_accepted = refl

validate_logical_path-allow_dot_example :
    validate_logical_path (chars ".") true ≡ validate_logical_path (chars ".") false
validate_logical_path-allow_dot_example = validate_logical_path-allow_dot (chars ".")

validate_logical_path-IsComponent_example :
    (posix_parts (chars "nested//./LPT10.md") ≡ nested)
    × ((starts_with (chars "/") (chars "nested//./LPT10.md")
          || starts_with (chars "~") (chars "nested//./LPT10.md"))
        ≡ false)
    × ((part : Text) → Memᴰ part nested → IsComponent part)
validate_logical_path-IsComponent_example =
    validate_logical_path-IsComponent (chars "nested//./LPT10.md") false nested nested_accepted
