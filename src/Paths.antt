-- ===== src/Paths.antt =====
-- security/paths.py: the first line of defence against unsafe paths. `os.path.normpath` and what the
-- file system says of a path are parameters.
pub mod Scope
pub mod Joining
pub mod Windows
mod Tests
use fathomline.Prelude.{Bool, true, false, not, ◌&&◌, ◌||◌, [], ◌∷◌, any, if◌then◌else◌, ◌==◌, ℕ_eq}
use fathomline.Prelude.Json.{Text}
use fathomline.Prelude.Path.{slash}
use fathomline.Prelude.Effect.{Outcome, ok, raised}

pub data PathSafetyError : Type 0 where
  empty_path has_nul not_absolute does_not_exist not_a_directory not_a_file : PathSafetyError

pub record Places : Type 0 where
  pub normpath : Text → Text
  pub exists : Text → Bool
  pub is_dir : Text → Bool
  pub is_file : Text → Bool

abbrev pub has_nul_byte : Text → Bool
has_nul_byte text = any (λ b. b == 0) text

abbrev pub is_absolute : Text → Bool
is_absolute [] = false
is_absolute (b ∷ text) = b == slash

abbrev no_text : Text → Bool
no_text [] = true
no_text (b ∷ text) = false

unfoldable pub validate_config_path :
    Places → Text → Bool → Bool → Bool → Outcome PathSafetyError Text
validate_config_path on text must_exist must_be_dir must_be_file =
    if no_text text
    then raised empty_path
    else if has_nul_byte text
    then raised has_nul
    else if not (is_absolute text)
    then raised not_absolute
    else if (must_exist || (must_be_dir || must_be_file)) && not (on.exists (on.normpath text))
    then raised does_not_exist
    else if must_be_dir && not (on.is_dir (on.normpath text))
    then raised not_a_directory
    else if must_be_file && not (on.is_file (on.normpath text))
    then raised not_a_file
    else ok (on.normpath text)
