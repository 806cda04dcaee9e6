-- ===== src/Paths/Windows/Tests.antt =====
-- Instances for the checks of Windows paths, over paths with a drive letter.
use fathomline.Prelude.{
  ℕ, ◌+◌, Bool, ◌&&◌, [], ◌∷◌, ◌++◌, map, refl, leb, ◌==◌, ℕ_eq, if◌then◌else◌, list_beq,
}
use fathomline.Prelude.Json.{Text, Text_eq, codes}
use fathomline.Prelude.Path.{split, starts_with, rstrip_any}
use fathomline.Paths.Windows.{
  NtPath, normalise, safe_windows_path_join, check_components, is_reserved_component,
  check_component,
}
use fathomline.Paths.Windows.Plain.{IsWithin, safe_windows_path_join-IsWithin}

abbrev letter_drive : Text → Text × Text
letter_drive (a ∷ b ∷ rest) = if b == b':' then (a ∷ b ∷ [], rest) else ([], a ∷ b ∷ rest)
letter_drive t = ([], t)

abbrev rooted : Text → Bool
rooted t = starts_with (92 ∷ []) (letter_drive t).1

abbrev lower : ℕ → ℕ
lower b = if leb 65 b && leb b 90 then b + 32 else b

abbrev sample_nt : NtPath
sample_nt = record {
  normpath = λ t. t;
  splitdrive = letter_drive;
  isabs = rooted;
  join = λ a b. a ++ (92 ∷ b);
  casefold = map lower;
}

safe_windows_path_join-IsWithin_example :
    IsWithin sample_nt (codes "C:\\data") (codes "sub/x") (codes "C:\\data\\sub\\x")
unfolding safe_windows_path_join normalise check_components check_component is_reserved_component
    list_beq split starts_with rstrip_any
safe_windows_path_join-IsWithin_example =
    safe_windows_path_join-IsWithin sample_nt (codes "C:\\data") (codes "sub/x")
      (codes "C:\\data\\sub\\x") refl
