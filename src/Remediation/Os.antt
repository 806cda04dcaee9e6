-- ===== src/Remediation/Os.antt =====
-- The operating system and `pathlib` as the actor uses them: `os.lstat`, `os.open` of a directory,
-- and the calls that take a directory's descriptor. A descriptor is the number of the directory
-- that it is open on; the `errno` of an OSError is a number.
pub mod Posix
pub mod Memory
use fathomline.Prelude.{ℕ, Bool, Option, none, some, ◌≡◌, ◌≢◌}
use fathomline.Prelude.Json.{Text}

pub record Stat : Type 0 where
  pub is_link : Bool
  pub ino : ℕ
  pub size : ℕ

pub data Opened : Type 0 where
  fd : ℕ → Opened
  refused : ℕ → Opened

-- `os.mkdir` and `os.link` tell FileExistsError from the other OSErrors.
pub data Made : Type 0 where
  made exists : Made
  refused : ℕ → Made

pub record Os : Type 1 where
  pub Fs : Type 0
  pub parent : Text → Text
  pub name : Text → Text
  pub lstat : Fs → Text → Option Stat
  pub open_directory : Fs → Text → Opened
  pub open_nofollow : Fs → Text → Opened
  pub open_at : Fs → ℕ → Text → Opened
  pub lstat_at : Fs → ℕ → Text → Option Stat
  -- The whole content that the reads through the descriptor return.
  pub read_at : Fs → ℕ → Text → Option Text
  pub make_private_directory : Fs → Text → Option ℕ × Fs
  pub mkdir_at : Fs → ℕ → Text → Made × Fs
  pub rename_at : Fs → ℕ → Text → ℕ → Text → Option ℕ × Fs
  pub link_at : Fs → ℕ → Text → ℕ → Text → Made × Fs
  pub unlink_at : Fs → ℕ → Text → Option ℕ × Fs
