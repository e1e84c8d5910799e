-- ===== src/Admission/Platform.antt =====
-- src/mission-admission/registry.ts: canonical repositories and canonical paths. What the runtime
-- answers (letter case, `node:path`, `node:fs` and `node:crypto`) is a parameter.
use Prim.Native.Char.{Char, code}
use tachiko_conductor.Prelude.{
  String, string_eq, nat_eq, ℕ, zero, suc, ◌+◌, ◌<◌, Bool, true, false, not, ◌&&◌, ◌||◌, ◌==◌, ltb,
  leb, Option, none, some, List, [], ◌∷◌, ◌≡◌, ◌≢◌, refl, ◌⊎◌, inl, inr, if◌then◌else◌, trim,
  is_blank, arith, Bool-cases,
}

-- What is digested for an identity, one part after another.
pub data DigestPart : Type 0 where
  text : String → DigestPart
  number : ℕ → DigestPart

pub record Platform : Type 0 where
  pub to_lower_case : String → String
  pub is_windows : Bool
  pub is_absolute : String → Bool
  pub resolve : String → String
  pub normalize : String → String
  pub dirname : String → String
  pub basename : String → String
  -- `path.join(directory, ...names)`
  pub join : String → List String → String
  pub relative : String → String → String
  -- `..${path.sep}`
  pub parent_prefix : String
  pub exists : String → Bool
  pub realpath : String → String
  -- The first 32 hexadecimal digits of the SHA-256 of the parts, which a NUL separates.
  pub digest : List DigestPart → String

-- `nonEmpty`
abbrev pub non_empty : String → Bool
non_empty value = not (is_blank value)

abbrev pub max_safe_integer : ℕ
max_safe_integer = 9007199254740991

-- `safePositive`
abbrev pub safe_positive : ℕ → Bool
safe_positive value = leb value max_safe_integer && ltb 0 value

-- A letter of ASCII in lower case, by its code.
abbrev lower_code : ℕ → ℕ
lower_code c = if leb 65 c && leb c 90 then c + 32 else c

-- The rest of `value` after `prefix`, a text in lower case, without regard to case.
after_prefix? : String → String → Option String
after_prefix? String.[] value = some value
after_prefix? (String.◌∷◌ p ps) String.[] = none
after_prefix? (String.◌∷◌ p ps) (String.◌∷◌ c cs) =
    let rest = after_prefix? ps cs in if lower_code (code c) == code p then rest else none

or_value : Option String → String → String
or_value none value = value
or_value (some found) value = found

-- `.replace(/^https?:\/\//i, '')`
abbrev without_protocol : String → String
unfolding after_prefix? or_value
without_protocol value =
    or_value (after_prefix? "https://" value) (or_value (after_prefix? "http://" value) value)

-- `.replace(/\.git$/i, '')`
without_git : String → String
unfolding after_prefix?
without_git String.[] = String.[]
without_git (String.◌∷◌ c cs) =
    let rest = without_git cs in
    if is_git (after_prefix? ".git" (String.◌∷◌ c cs)) then String.[] else String.◌∷◌ c rest
  where
    is_git : Option String → Bool
    is_git none = false
    is_git (some left) = left == ""

-- `.replace(/\/+$/, '')`
without_slashes : String → String
without_slashes String.[] = String.[]
without_slashes (String.◌∷◌ c cs) = keep c (without_slashes cs)
  where
    keep : Char → String → String
    keep c String.[] = if code c == 47 then String.[] else String.◌∷◌ c String.[]
    keep c (String.◌∷◌ d ds) = String.◌∷◌ c (String.◌∷◌ d ds)

-- `[a-z0-9_.-]`
abbrev is_name_code : ℕ → Bool
is_name_code c =
    (leb 97 c && leb c 122) || (leb 48 c && leb c 57) || (c == 95) || (c == 46) || (c == 45)

-- `[a-z0-9_.-]+$`, after `seen` says that one such character stands before.
is_name : Bool → String → Bool
is_name seen String.[] = seen
is_name seen (String.◌∷◌ c cs) = is_name_code (code c) && is_name true cs

-- `/^[a-z0-9_.-]+\/[a-z0-9_.-]+$/`
is_owner_name : Bool → String → Bool
unfolding is_name
is_owner_name seen String.[] = false
is_owner_name seen (String.◌∷◌ c cs) =
    (is_name_code (code c) && is_owner_name true cs) || ((code c == 47) && seen && is_name false cs)

-- The length of a text in characters.
abbrev pub text_length : String → ℕ
text_length String.[] = 0
text_length (String.◌∷◌ c cs) = suc (text_length cs)

module _ (P : Platform) where
  abbrev stripped_repository : String → String
  unfolding trim without_git without_slashes without_protocol
  stripped_repository value =
      P.to_lower_case (without_slashes (without_git (without_protocol (trim value))))

  -- `canonicalRepository`, which throws on a text that names no repository.
  unfoldable pub canonical_repository : String → Option String
  unfolding is_owner_name stripped_repository
  canonical_repository value =
      if is_owner_name false (stripped_repository value)
      then some (stripped_repository value)
      else none

  -- The climb from a path to its closest ancestor that exists, and the names that it passes. The fuel
  -- bounds the climb; `none` says that it did not suffice.
  unfoldable pub climb :
      ℕ → (ancestor : String) → (suffix : List String) → Option (String × List String)
  climb zero ancestor suffix = none
  climb (suc fuel) ancestor suffix =
      let higher = climb fuel (P.dirname ancestor) (P.basename ancestor ∷ suffix) in
      if P.exists ancestor
      then some (ancestor, suffix)
      else if P.dirname ancestor == ancestor
      then some (ancestor, suffix)
      else higher

  physical : (resolved : String) → Option (String × List String) → String
  physical resolved none = resolved
  physical resolved (some (ancestor, suffix)) =
      if P.exists ancestor then P.join (P.realpath ancestor) suffix else resolved

  -- The resolved path, with what exists of it replaced by its real path.
  abbrev real_path : String → String
  unfolding climb physical
  real_path resolved =
      if P.exists resolved
      then P.realpath resolved
      else physical resolved (climb (suc (text_length resolved)) resolved [])

  -- `canonicalPath`, which throws on a relative path.
  unfoldable pub canonical_path : String → Option String
  unfolding real_path
  canonical_path value =
      let result = P.normalize (real_path (P.resolve value)) in
      if P.is_absolute value
      then some (if P.is_windows then P.to_lower_case result else result)
      else none

  -- What `node:path` documents of the parent of an absolute path: it is absolute, and it is shorter,
  -- unless the path is a root, which is its own parent.
  pub record HasParents : Type 0 where
    pub absolute :
        (path : String) → P.is_absolute path ≡ true → P.is_absolute (P.dirname path) ≡ true
    pub shorter :
        (path : String)
        → P.is_absolute path ≡ true
        → (P.dirname path ≡ path) ⊎ (text_length (P.dirname path) < text_length path)

  -- The climb from an absolute path ends, on any fuel above the path's length, at an ancestor that
  -- exists or at a root.
  pub climb-Finds :
      HasParents
      → (fuel : ℕ) (path : String) (suffix : List String) → P.is_absolute path ≡ true
      → text_length path < fuel
      → (ancestor : String) × (names : List String) × (climb fuel path suffix
          ≡ some (ancestor, names))
        × ((P.exists ancestor ≡ true) ⊎ (P.dirname ancestor ≡ ancestor))
  unfolding climb
  climb-Finds laws zero path suffix absolute enough = absurd (omega (arith, enough))
  climb-Finds laws (suc fuel) path suffix absolute enough = elim (Bool-cases (P.exists path)) [
    | inl here ↦ (path, suffix, rw here refl, inl here)
    | inr missing ↦ elim (Bool-cases (P.dirname path == path)) [
      | inl root ↦ (path, suffix, rw (missing, root) refl, inr ((string_eq.beq_iff _ _).0 root))
      | inr below ↦
          let smaller : text_length (P.dirname path) < fuel = elim (laws.shorter path absolute) [
            | inl same ↦ absurd (distinct_root below same)
            | inr less ↦ omega (arith, less, enough)
          ] in
          let (ancestor, names, found, ends) =
            climb-Finds laws fuel (P.dirname path) (P.basename path ∷ suffix)
              (laws.absolute path absolute) smaller in
          (ancestor, names, rw (missing, below) found, ends)
    ]
  ]
    where
      distinct_root : (P.dirname path == path) ≡ false → P.dirname path ≢ path
      distinct_root below same = ground (arith, (string_eq.beq_iff (P.dirname path) path).1 same)
