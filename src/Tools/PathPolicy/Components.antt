-- ===== src/Tools/PathPolicy/Components.antt =====
-- What `validate_logical_path` of src/millforge/tools/path_policy.py accepts.
use mathlib.Core.List.Memᴰ
use mathlib.Core.List.{Memᴰ}
use mathlib.Core.Path.{subst}
use millforge.Prelude.{
  ℕ, ◌==◌, String, List, [], ◌∷◌, all, any, Bool, true, false, ◌&&◌, ◌||◌, not, ◌≡◌, ◌≢◌, refl, sym,
  ◌⊎◌, inl, inr, if◌then◌else◌, is_space, arith, Bool-cases,
}
use millforge.Tools.PathPolicy.{
  Text, LogicalPath, accepted, refused, has, same_text, chars, starts_with, starts_with_one,
  windows_device_prefixes, unc_prefixes, has_drive, prepend, split_slashes, drop_dots, posix_parts,
  is_windows_reserved_device_name, is_rejected, is_traversal, is_dot, is_only_dot, validate_parts,
  validate_logical_path,
}

-- A part that a split has made.
any-false :
    {A : Type 0} (p : A → Bool) (xs : List A) → any p xs ≡ false → (x : A) → Memᴰ x xs → p x ≡ false
any-false p [] h x m = absurd (Memᴰ.not-nil m)
any-false p (y ∷ ys) h x (Memᴰ.head e) = subst (λ z. p z ≡ false) (sym e) (ground arith)
any-false p (y ∷ ys) h x (Memᴰ.tail m) = any-false p ys (ground arith) x m

false-any :
    {A : Type 0} (p : A → Bool) (xs : List A)
    → ((x : A) → Memᴰ x xs → p x ≡ false)
    → any p xs ≡ false
false-any p [] h = refl
false-any p (y ∷ ys) h =
    let first = h y (Memᴰ.head refl) in
    let rest = false-any p ys (λ x m. h x (Memᴰ.tail m)) in ground arith

-- The parts of a path have no dot and no empty part.
drop_dots-kept :
    (parts : List Text) (part : Text)
    → Memᴰ part (drop_dots parts)
    → Memᴰ part parts × (same_text part [] ≡ false) × (is_dot part ≡ false)
unfolding drop_dots
drop_dots-kept [] part m = absurd (Memᴰ.not-nil m)
drop_dots-kept (p ∷ parts) part m = elim (Bool-cases (same_text p [] || is_dot p)) [
  | inl dropped ↦
      let (i, e, d) =
        drop_dots-kept parts part
          (subst (λ b. Memᴰ part (if b then drop_dots parts else p ∷ drop_dots parts)) dropped m) in
      (Memᴰ.tail i, e, d)
  | inr stays ↦
      elim (Memᴰ.cases_cons
        (subst (λ b. Memᴰ part (if b then drop_dots parts else p ∷ drop_dots parts)) stays m)) [
          | inl e ↦
              subst (λ z. Memᴰ z (p ∷ parts) × (same_text z [] ≡ false) × (is_dot z ≡ false))
                (sym e) (Memᴰ.head refl, ground arith, ground arith)
          | inr later ↦ let (i, e, d) = drop_dots-kept parts part later in (Memᴰ.tail i, e, d)
        ]
]

no_dots : (value : Text) → any is_dot (posix_parts value) ≡ false
unfolding posix_parts
no_dots value =
    false-any is_dot (drop_dots (split_slashes value))
      (λ part m. let (i, e, d) = drop_dots-kept (split_slashes value) part m in d)

no_only_dot : (parts : List Text) → any is_dot parts ≡ false → is_only_dot parts ≡ false
no_only_dot [] h = refl
no_only_dot (part ∷ []) h = ground arith
no_only_dot (part ∷ next ∷ parts) h = refl

validate_parts-allow_dot :
    (parts : List Text)
    → any is_dot parts ≡ false
    → validate_parts parts true ≡ validate_parts parts false
unfolding validate_parts
validate_parts-allow_dot parts h = rw (h, no_only_dot parts h) refl

-- `validate_logical_path` returns or raises the same with `allow_dot` as without it, for every
-- path.
pub validate_logical_path-allow_dot :
    (value : Text) → validate_logical_path value true ≡ validate_logical_path value false
unfolding validate_logical_path
validate_logical_path-allow_dot value =
    rw (validate_parts-allow_dot (posix_parts value) (no_dots value)) refl

-- A part of an accepted path.
pub record IsComponent (part : Text) : Type 0 where
  pub is_named : part ≢ []
  pub is_no_dot : part ≢ chars "."
  pub is_no_traversal : part ≢ chars ".."
  pub is_posix : (has b'/' part ≡ false) × (has b'\\' part ≡ false)
  pub is_no_drive : has b':' part ≡ false
  pub has_no_nul : has 0 part ≡ false
  pub is_no_device : is_windows_reserved_device_name part ≡ false

passes :
    (b : Bool) (message : String) (r : LogicalPath) {parts : List Text}
    → (if b then refused message else r) ≡ accepted parts
    → (b ≡ false) × (r ≡ accepted parts)
passes true message r h = cc
passes false message r h = (refl, h)

prepend-has :
    (c k : ℕ) (parts : List Text) (part : Text)
    → Memᴰ part (prepend c parts)
    → has k part ≡ true
    → (c == k ≡ true) ⊎ ((p : Text) × Memᴰ p parts × (has k p ≡ true))
prepend-has c k [] part m h = elim (Memᴰ.cases_cons m) [
  | inl e ↦ inl (let h' : has k (c ∷ []) ≡ true = subst (λ z. has k z ≡ true) e h in ground arith)
  | inr n ↦ absurd (Memᴰ.not-nil n)
]
prepend-has c k (q ∷ parts) part m h = elim (Memᴰ.cases_cons m) [
  | inl e ↦
      let h' : has k (c ∷ q) ≡ true = subst (λ z. has k z ≡ true) e h in
      elim (Bool-cases (c == k)) [
        | inl same ↦ inl same
        | inr other ↦ inr (q, Memᴰ.head refl, ground arith)
      ]
  | inr n ↦ inr (part, Memᴰ.tail n, h)
]

-- A character of a part is one of the text, and not a slash.
split_slashes-has :
    (k : ℕ) (value part : Text)
    → Memᴰ part (split_slashes value)
    → has k part ≡ true
    → (has k value ≡ true) × (k ≢ b'/')
unfolding split_slashes
split_slashes-has k [] part m h = elim (Memᴰ.cases_cons m) [
  | inl e ↦ let h' : has k [] ≡ true = subst (λ z. has k z ≡ true) e h in absurd cc
  | inr n ↦ absurd (Memᴰ.not-nil n)
]
split_slashes-has k (c ∷ value) part m h = elim (Bool-cases (c == b'/')) [
  | inl slash ↦
      elim (Memᴰ.cases_cons (
        subst
          (λ b. Memᴰ part (if b then [] ∷ split_slashes value else prepend c (split_slashes value)))
          slash m)) [
            | inl e ↦ let h' : has k [] ≡ true = subst (λ z. has k z ≡ true) e h in absurd cc
            | inr n ↦ let (a, b) = split_slashes-has k value part n h in (ground arith, b)
          ]
  | inr other ↦
      elim (prepend-has c k (split_slashes value) part
        (subst
          (λ b. Memᴰ part (if b then [] ∷ split_slashes value else prepend c (split_slashes value)))
          other m)
        h) [
          | inl same ↦ (ground arith, λ e. ground arith)
          | inr (p, n, g) ↦ let (a, b) = split_slashes-has k value p n g in (ground arith, b)
        ]
]

absent :
    (k : ℕ) (value part : Text)
    → has k value ≡ false
    → Memᴰ part (split_slashes value)
    → has k part ≡ false
absent k value part none_there m = elim (Bool-cases (has k part)) [
  | inl there ↦ let (a, b) = split_slashes-has k value part m there in absurd cc
  | inr out ↦ out
]

no_slash : (value part : Text) → Memᴰ part (split_slashes value) → has b'/' part ≡ false
no_slash value part m = elim (Bool-cases (has b'/' part)) [
  | inl there ↦ let (a, b) = split_slashes-has b'/' value part m there in absurd (b refl)
  | inr out ↦ out
]

differs :
    (part other : Text) → same_text part other ≡ false → same_text other other ≡ true → part ≢ other
differs part other h same e =
    let h' : same_text other other ≡ false = subst (λ z. same_text z other ≡ false) e h in cc

posix_parts-IsComponent :
    (value part : Text)
    → has 0 value ≡ false
    → has b'\\' value ≡ false
    → has b':' value ≡ false
    → is_traversal part ≡ false
    → is_rejected part ≡ false
    → Memᴰ part (posix_parts value)
    → IsComponent part
unfolding posix_parts
posix_parts-IsComponent value part nul slash colon traversal rejected m =
    let (i, e, d) = drop_dots-kept (split_slashes value) part m in
    let up : same_text part (chars "..") ≡ false = ground arith in
    record {
      is_named = differs part [] e refl;
      is_no_dot = differs part (chars ".") d refl;
      is_no_traversal = differs part (chars "..") up refl;
      is_posix = (no_slash value part i, absent b'\\' value part slash i);
      is_no_drive = absent b':' value part colon i;
      has_no_nul = absent 0 value part nul i;
      is_no_device = ground arith;
    }

accepted-injective : {a b : List Text} → accepted a ≡ accepted b → a ≡ b
accepted-injective e = cc

validate_parts-accepted :
    (parts out : List Text) (allow_dot : Bool)
    → validate_parts parts allow_dot ≡ accepted out
    → (parts ≡ out) × (any is_traversal parts ≡ false) × (any is_rejected parts ≡ false)
unfolding validate_parts
validate_parts-accepted parts out allow_dot h =
    let (traversal, h₁) = passes (any is_traversal parts) _ _ h in
    let (dots, h₂) = passes (not allow_dot && any is_dot parts) _ _ h₁ in
    let (dot, h₃) = passes (is_only_dot parts && not allow_dot) _ _ h₂ in
    let (rejected, h₄) = passes (any is_rejected parts) _ _ h₃ in
    (accepted-injective h₄, traversal, rejected)

-- A path that `validate_logical_path` accepts starts with no slash and no tilde, and what it
-- returns are the path's parts. None of them is empty, `.` or `..`, has a slash, a backslash, a
-- colon or a NUL, or names a reserved device.
pub validate_logical_path-IsComponent :
    (value : Text) (allow_dot : Bool) (parts : List Text)
    → validate_logical_path value allow_dot ≡ accepted parts
    → (posix_parts value ≡ parts)
      × ((starts_with (chars "/") value || starts_with (chars "~") value) ≡ false)
      × ((part : Text) → Memᴰ part parts → IsComponent part)
unfolding validate_logical_path
validate_logical_path-IsComponent value allow_dot parts h =
    let (blank, h₁) = passes (all is_space value) _ _ h in
    let (nul, h₂) = passes (has 0 value) _ _ h₁ in
    let (slash, h₃) = passes (has b'\\' value) _ _ h₂ in
    let (colon, h₄) = passes (has b':' value) _ _ h₃ in
    let (device, h₅) =
      passes (starts_with_one windows_device_prefixes value || starts_with_one unc_prefixes value) _
        _ h₄ in
    let (drive, h₆) = passes (has_drive value) _ _ h₅ in
    let (root, h₇) = passes (starts_with (chars "/") value) _ _ h₆ in
    let (home, h₈) = passes (starts_with (chars "~") value) _ _ h₇ in
    let (same, traversal, rejected) =
      validate_parts-accepted (posix_parts value) parts allow_dot h₈ in
    (
      same,
      ground arith,
      λ part m.
          let i = subst (λ ps. Memᴰ part ps) (sym same) m in
          posix_parts-IsComponent value part nul slash colon
            (any-false is_traversal (posix_parts value) traversal part i)
            (any-false is_rejected (posix_parts value) rejected part i) i,
    )
