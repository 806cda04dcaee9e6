-- ===== src/Remediation/Os/Posix.antt =====
-- What POSIX documents of the calls of `Os`: which file each name of a directory stands for after a
-- call. A file is told by its inode number.
use fathomline.Prelude.{ℕ, Bool, false, ◌&&◌, Option, none, some, ◌≡◌, ◌==◌, ℕ_eq}
use fathomline.Prelude.Json.{Text, Text_eq}
use fathomline.Remediation.Os.{Os, Stat, made}

abbrev pub same_place : ℕ → Text → ℕ → Text → Bool
same_place d n e m = d == e && n == m

abbrev inode_of : Option Stat → Option ℕ
inode_of none = none
inode_of (some st) = some st.ino

-- The inode that a name of a directory stands for.
abbrev pub inode_at : (os : Os) → os.Fs → ℕ → Text → Option ℕ
inode_at os fs d n = inode_of (os.lstat_at fs d n)

-- Every name of `fs` still stands for its file in `fs'`, but for one place.
abbrev pub KeepsBut : (os : Os) → ℕ → Text → os.Fs → os.Fs → Type 0
KeepsBut os d n fs fs' =
    (e : ℕ) (m : Text) (i : ℕ)
    → same_place d n e m ≡ false
    → inode_at os fs e m ≡ some i
    → inode_at os fs' e m ≡ some i

-- Every name of `fs` still stands for its file in `fs'`.
abbrev pub KeepsAll : (os : Os) → os.Fs → os.Fs → Type 0
KeepsAll os fs fs' =
    (e : ℕ) (m : Text) (i : ℕ) → inode_at os fs e m ≡ some i → inode_at os fs' e m ≡ some i

pub record IsPosix (os : Os) : Type 0 where
  -- mkdir takes no name away.
  pub mkdir_keeps : (fs : os.Fs) (d : ℕ) (n : Text) → KeepsAll os fs (os.mkdir_at fs d n).1
  -- link(2): a name that exists is not overwritten, and a failed call changes nothing.
  pub link_made :
      (fs : os.Fs) (d : ℕ) (n : Text) (e : ℕ) (m : Text)
      → (os.link_at fs d n e m).0 ≡ made
      → (i : ℕ) × (inode_at os fs d n ≡ some i)
        × (inode_at os fs e m ≡ none)
        × (inode_at os (os.link_at fs d n e m).1 e m ≡ some i)
  pub link_keeps :
      (fs : os.Fs) (d : ℕ) (n : Text) (e : ℕ) (m : Text) → KeepsAll os fs (os.link_at fs d n e m).1
  -- unlink(2): the one name is gone, and a failed call changes nothing.
  pub unlink_done :
      (fs : os.Fs) (d : ℕ) (n : Text)
      → (os.unlink_at fs d n).0 ≡ none
      → inode_at os (os.unlink_at fs d n).1 d n ≡ none
  pub unlink_keeps : (fs : os.Fs) (d : ℕ) (n : Text) → KeepsBut os d n fs (os.unlink_at fs d n).1
  pub unlink_failed :
      (fs : os.Fs) (d : ℕ) (n : Text) (x : ℕ)
      → (os.unlink_at fs d n).0 ≡ some x
      → (os.unlink_at fs d n).1 ≡ fs
  -- rename(2) to a name that is free: the new name stands for the file, and the old one is gone.
  pub rename_done :
      (fs : os.Fs) (d : ℕ) (n : Text) (e : ℕ) (m : Text)
      → inode_at os fs e m ≡ none
      → (os.rename_at fs d n e m).0 ≡ none
      → (i : ℕ) × (inode_at os fs d n ≡ some i)
        × (inode_at os (os.rename_at fs d n e m).1 e m ≡ some i)
        × (inode_at os (os.rename_at fs d n e m).1 d n ≡ none)
        × KeepsBut os d n fs (os.rename_at fs d n e m).1
  pub rename_failed :
      (fs : os.Fs) (d : ℕ) (n : Text) (e : ℕ) (m : Text) (x : ℕ)
      → (os.rename_at fs d n e m).0 ≡ some x
      → (os.rename_at fs d n e m).1 ≡ fs
