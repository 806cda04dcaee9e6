-- ===== src/Prelude/Path.antt =====
-- Python's `str.split`, `str.rstrip` and the like at one separator byte.
use Prim.Native.Nat.{ℕ, zero, suc}
use mathlib.Core.Bool.{Bool, true, false, ◌&&◌, ◌||◌}
use mathlib.Core.List.{List, [], ◌∷◌, reverse}
use fathomline.Prelude.Tests.{ℕ_eq, ◌==◌, if◌then◌else◌}
use fathomline.Prelude.Json.{Text}

abbrev pub slash : ℕ
slash = b'/'

-- The part that is being read, put in front of the first part of what follows.
abbrev pub onto_first : ℕ → List Text → List Text
onto_first b [] = (b ∷ []) ∷ []
onto_first b (t ∷ ts) = (b ∷ t) ∷ ts

-- `text.split(sep)`: always at least one part.
unfoldable pub split : ℕ → Text → List Text
split sep [] = [] ∷ []
split sep (b ∷ rest) =
    let parts = split sep rest in if b == sep then [] ∷ parts else onto_first b parts

abbrev pub cons_unless_empty : Bool → ℕ → Text → Text
cons_unless_empty strips b [] = if strips then [] else b ∷ []
cons_unless_empty strips b (c ∷ t) = b ∷ c ∷ t

-- `text.rstrip(sep)`.
unfoldable pub rstrip : ℕ → Text → Text
rstrip sep [] = []
rstrip sep (b ∷ rest) = cons_unless_empty (b == sep) b (rstrip sep rest)

-- `text.lstrip(sep)`.
unfoldable pub lstrip : ℕ → Text → Text
lstrip sep [] = []
lstrip sep (b ∷ rest) = let t = lstrip sep rest in if b == sep then t else b ∷ rest

-- `text.strip(sep)`.
unfoldable pub strip : ℕ → Text → Text
unfolding lstrip rstrip
strip sep text = lstrip sep (rstrip sep text)

-- `text.rstrip(chars)`, for the bytes that `strips` holds for.
abbrev pub cons_kept : Bool → ℕ → Text → Text
cons_kept strips b [] = if strips then [] else b ∷ []
cons_kept strips b (c ∷ t) = b ∷ c ∷ t

unfoldable pub rstrip_any : (ℕ → Bool) → Text → Text
rstrip_any strips [] = []
rstrip_any strips (b ∷ rest) = cons_kept (strips b) b (rstrip_any strips rest)

-- `text.replace(old, new)` for two bytes.
abbrev pub replace : ℕ → ℕ → Text → Text
replace old new [] = []
replace old new (b ∷ text) = (if b == old then new else b) ∷ replace old new text

-- `text.startswith(prefix)`.
unfoldable pub starts_with : Text → Text → Bool
starts_with [] text = true
starts_with (p ∷ prefix) [] = false
starts_with (p ∷ prefix) (b ∷ text) = p == b && starts_with prefix text

-- `text.endswith(suffix)`.
abbrev pub ends_with : Text → Text → Bool
ends_with suffix text = starts_with (reverse suffix) (reverse text)

-- `part in text`.
unfoldable pub contains : Text → Text → Bool
unfolding starts_with
contains part [] = starts_with part []
contains part (b ∷ text) = starts_with part (b ∷ text) || contains part text

-- `text[n:]`.
abbrev pub drop : ℕ → Text → Text
drop zero text = text
drop (suc n) [] = []
drop (suc n) (b ∷ text) = drop n text

-- `*front, last = parts`, for parts `p, *ps`.
unfoldable pub front_of : Text → List Text → List Text
front_of p [] = []
front_of p (q ∷ ps) = p ∷ front_of q ps

unfoldable pub last_of : Text → List Text → Text
last_of p [] = p
last_of p (q ∷ ps) = last_of q ps
