-- ===== src/Paths/Windows.antt =====
-- security/winpaths.py: the checks of a Windows path. The functions of ntpath and `casefold` are
-- parameters.
pub mod Plain
mod Tests
use fathomline.Prelude.{
  ℕ, zero, suc, ◌+◌, ◌-◌, Bool, true, false, not, ◌&&◌, ◌||◌, List, [], ◌∷◌, ◌++◌, map, any, keep,
  take, length, if◌then◌else◌, ◌==◌, ℕ_eq, ltb, leb, list_beq, member, Eq,
}
use fathomline.Prelude.Json.{Text, Text_eq, codes}
use fathomline.Prelude.Path.{slash, split, drop, starts_with, rstrip_any, replace}
use fathomline.Prelude.Effect.{Outcome, ok, raised, bind}

pub record NtPath : Type 0 where
  pub normpath : Text → Text
  pub splitdrive : Text → Text × Text
  pub isabs : Text → Bool
  pub join : Text → Text → Text
  pub casefold : Text → Text

pub data WindowsPathError : Type 0 where
  forbidden_character alternate_stream reserved_name dot_or_space : WindowsPathError
  empty_path has_nul not_rooted candidate_not_relative escapes_base : WindowsPathError

abbrev backslash : ℕ
backslash = 92

abbrev long_prefix : Text
long_prefix = codes "\\\\?\\"

abbrev long_unc_prefix : Text
long_unc_prefix = codes "\\\\?\\UNC\\"

abbrev pub strip_long_path_prefix : Text → Text
strip_long_path_prefix text =
    if starts_with long_unc_prefix text
    then backslash ∷ backslash ∷ drop (length long_unc_prefix) text
    else if starts_with long_prefix text
    then drop (length long_prefix) text
    else text

abbrev upper : ℕ → ℕ
upper b = if leb 97 b && leb b 122 then b - 32 else b

-- The alternatives of `_RESERVED`.
abbrev devices : List Text
devices =
    codes "CON"
    ∷ codes "PRN"
    ∷ codes "AUX"
    ∷ codes "NUL"
    ∷ codes "COM1"
    ∷ codes "COM2"
    ∷ codes "COM3"
    ∷ codes "COM4"
    ∷ codes "COM5"
    ∷ codes "COM6"
    ∷ codes "COM7"
    ∷ codes "COM8"
    ∷ codes "COM9"
    ∷ codes "LPT1"
    ∷ codes "LPT2"
    ∷ codes "LPT3"
    ∷ codes "LPT4"
    ∷ codes "LPT5"
    ∷ codes "LPT6"
    ∷ codes "LPT7"
    ∷ codes "LPT8"
    ∷ codes "LPT9"
    ∷ []

-- `(\.|$)`: `$` also matches before a newline that is the last character.
abbrev ends_device : Text → Bool
ends_device [] = true
ends_device (b ∷ []) = b == b'.' || b == 10
ends_device (b ∷ c ∷ rest) = b == b'.'

abbrev is_device : Text → Text → Bool
is_device name device =
    starts_with device (map upper name) && ends_device (drop (length device) name)

unfoldable pub is_reserved_component : Text → Bool
is_reserved_component name = any (is_device name) devices

abbrev pub is_forbidden : ℕ → Bool
is_forbidden b = member b (codes "<>\"|?*")

abbrev pub strippable : ℕ → Bool
strippable b = b == b' ' || b == b'.'

abbrev no_text : Text → Bool
no_text [] = true
no_text (b ∷ text) = false

unfoldable pub check_component : Text → Outcome WindowsPathError (Unit {0})
unfolding is_reserved_component
check_component comp =
    if any is_forbidden comp || any (λ b. ltb b 32) comp
    then raised forbidden_character
    else if member b':' comp
    then raised alternate_stream
    else if is_reserved_component comp
    then raised reserved_name
    else if not (comp == rstrip_any strippable comp)
    then raised dot_or_space
    else ok tt

-- The loop over the components.
unfoldable pub check_components : List Text → Outcome WindowsPathError (Unit {0})
unfolding check_component
check_components [] = ok tt
check_components (comp ∷ components) =
    let rest = check_components components in bind (check_component comp) (λ _. rest)

module _ (nt : NtPath) where
  abbrev pub components_of : Text → List Text
  components_of rest = keep (λ c. not (no_text c)) (split backslash rest)

  unfoldable pub normalise : Text → Outcome WindowsPathError (Text × Text × List Text)
  unfolding check_components
  normalise text =
      let norm = nt.normpath (strip_long_path_prefix text) in
      let (drive, rest) = nt.splitdrive norm in
      if no_text text
      then raised empty_path
      else if member 0 text
      then raised has_nul
      else if no_text drive || not (nt.isabs norm)
      then raised not_rooted
      else bind (check_components (components_of rest)) (λ _. ok (drive, norm, components_of rest))

  unfoldable pub validate_windows_config_path : Text → Outcome WindowsPathError Text
  unfolding normalise
  validate_windows_config_path value = bind (normalise value) (λ n. ok n.1)

  abbrev folded : List Text → List Text
  folded components = map nt.casefold components

  abbrev within : List Text → Text × Text × List Text → Outcome WindowsPathError Text
  within base_comps (drive, norm, comps) =
      if not (list_beq (take (length (folded base_comps)) (folded comps)) (folded base_comps))
      then raised escapes_base
      else ok norm

  unfoldable pub safe_windows_path_join : Text → Text → Outcome WindowsPathError Text
  unfolding normalise
  safe_windows_path_join base candidate = bind (normalise base) (λ b.
      let cand = replace slash backslash (strip_long_path_prefix candidate) in
      if no_text candidate
      then raised empty_path
      else if member 0 candidate
      then raised has_nul
      else if not (no_text (nt.splitdrive cand).0) || starts_with (backslash ∷ []) cand
      then raised candidate_not_relative
      else bind (normalise (nt.join b.1 cand)) (within b.2))
