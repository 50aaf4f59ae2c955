-- ===== src/Tools/PathPolicy.antt =====
-- `validate_logical_path` of src/millforge/tools/path_policy.py, and the names of devices that it refuses.
-- A text is the list of its code points.
pub mod Components
use Prim.Native.Char.{code}
use millforge.Prelude.{
  ℕ, ◌+◌, ◌==◌, String, List, [], ◌∷◌, ◌++◌, all, any, Bool, true, false, ◌&&◌, ◌||◌, not, is_space,
  leb, if◌then◌else◌,
}

abbrev pub Text : Type 0
Text = List ℕ

-- The code points of a text of the source.
abbrev pub chars : String → Text
chars String.[] = []
chars (String.◌∷◌ c rest) = code c ∷ chars rest

abbrev pub has : ℕ → Text → Bool
has c text = any (λ d. d == c) text

abbrev pub same_text : Text → Text → Bool
same_text [] [] = true
same_text (c ∷ cs) (d ∷ ds) = c == d && same_text cs ds
same_text cs ds = false

-- `value.startswith(prefix)`
abbrev pub starts_with : Text → Text → Bool
starts_with [] value = true
starts_with (c ∷ cs) [] = false
starts_with (c ∷ cs) (d ∷ ds) = c == d && starts_with cs ds

abbrev pub starts_with_one : List Text → Text → Bool
starts_with_one prefixes value = any (λ prefix. starts_with prefix value) prefixes

abbrev pub windows_device_prefixes : List Text
windows_device_prefixes = chars "\\\\?\\" ∷ chars "\\\\.\\" ∷ chars "//?/" ∷ chars "//./" ∷ []

abbrev pub unc_prefixes : List Text
unc_prefixes = chars "\\\\" ∷ chars "//" ∷ []

abbrev pub is_letter : ℕ → Bool
is_letter c = leb b'a' c && leb c b'z' || leb b'A' c && leb c b'Z'

-- `^[a-zA-Z]:`
abbrev pub has_drive : Text → Bool
has_drive (c ∷ d ∷ value) = is_letter c && d == b':'
has_drive value = false

-- `value.split("/")`
abbrev pub prepend : ℕ → List Text → List Text
prepend c [] = (c ∷ []) ∷ []
prepend c (part ∷ parts) = (c ∷ part) ∷ parts

unfoldable pub split_slashes : Text → List Text
split_slashes [] = [] ∷ []
split_slashes (c ∷ value) =
    let rest = split_slashes value in if c == b'/' then [] ∷ rest else prepend c rest

-- `PurePosixPath(value).parts` of a relative path, which has no empty part and no `.`
unfoldable pub drop_dots : List Text → List Text
drop_dots [] = []
drop_dots (part ∷ parts) =
    let rest = drop_dots parts in
    if same_text part [] || same_text part (chars ".") then rest else part ∷ rest

unfoldable pub posix_parts : Text → List Text
unfolding split_slashes drop_dots
posix_parts value = drop_dots (split_slashes value)

-- `part.rstrip(" .")`
unfoldable pub rstrip_dots : Text → Text
rstrip_dots [] = []
rstrip_dots (c ∷ text) =
    let rest = rstrip_dots text in
    if same_text rest [] && (c == b' ' || c == b'.') then [] else c ∷ rest

-- `trimmed.split(".", 1)[0]`
unfoldable pub before_dot : Text → Text
before_dot [] = []
before_dot (c ∷ text) = let rest = before_dot text in if c == b'.' then [] else c ∷ rest

-- `casefold()`, as far as it can make one of the names below: these are ASCII letters and digits that no
-- other character folds to alone
abbrev pub fold : ℕ → ℕ
fold c = if leb b'A' c && leb c b'Z' then c + 32 else c

unfoldable pub casefold : Text → Text
casefold [] = []
casefold (c ∷ text) = fold c ∷ casefold text

-- `f"{name}{i}"` for each digit
abbrev pub numbered_names : Text → Text → List Text
numbered_names name [] = []
numbered_names name (d ∷ ds) = (name ++ d ∷ []) ∷ numbered_names name ds

unfoldable pub windows_reserved_device_names : List Text
windows_reserved_device_names =
    chars "aux"
    ∷ chars "con"
    ∷ chars "conin$"
    ∷ chars "conout$"
    ∷ chars "nul"
    ∷ chars "prn"
    ∷ (numbered_names (chars "com") (chars "123456789")
        ++ numbered_names (chars "lpt") (chars "123456789"))

-- `_is_windows_reserved_device_name`
unfoldable pub is_windows_reserved_device_name : Text → Bool
unfolding rstrip_dots before_dot casefold windows_reserved_device_names
is_windows_reserved_device_name part =
    let trimmed = rstrip_dots part in
    if same_text trimmed []
    then false
    else let base = casefold (rstrip_dots (before_dot trimmed)) in
      any (λ name. same_text base name) windows_reserved_device_names

-- What `_reject_windows_reserved_device_names` raises for.
abbrev pub is_rejected : Text → Bool
is_rejected part =
    not (same_text part (chars ".") || same_text part (chars ".."))
    && is_windows_reserved_device_name part

pub data LogicalPath : Type 0 where
  accepted : List Text → LogicalPath
  -- a PathPolicyError
  refused : String → LogicalPath

abbrev pub is_traversal : Text → Bool
is_traversal part = same_text part [] || same_text part (chars "..")

abbrev pub is_dot : Text → Bool
is_dot part = same_text part (chars ".")

abbrev pub is_only_dot : List Text → Bool
is_only_dot (part ∷ []) = is_dot part
is_only_dot parts = false

-- The checks of the parts.
unfoldable pub validate_parts : List Text → Bool → LogicalPath
validate_parts parts allow_dot =
    if any is_traversal parts
    then refused "path must not contain traversal components"
    else if not allow_dot && any is_dot parts
    then refused "path must not contain current-directory components"
    else if is_only_dot parts && not allow_dot
    then refused "path must not be current directory"
    else if any is_rejected parts
    then refused "path must not use a reserved Windows device name"
    else accepted parts

unfoldable pub validate_logical_path : Text → Bool → LogicalPath
validate_logical_path value allow_dot =
    if all is_space value
    then refused "path must be a non-empty logical relative path"
    else if has 0 value
    then refused "path contains a NUL byte"
    else if has b'\\' value
    then refused "path must use POSIX separators"
    else if has b':' value
    then refused "path must not contain Windows drive or ADS syntax"
    else if starts_with_one windows_device_prefixes value || starts_with_one unc_prefixes value
    then refused "path must not use Windows device or UNC syntax"
    else if has_drive value
    then refused "path must not use a Windows drive prefix"
    else if starts_with (chars "/") value
    then refused "path must not be absolute"
    else if starts_with (chars "~") value
    then refused "path must not use home-directory syntax"
    else validate_parts (posix_parts value) allow_dot
