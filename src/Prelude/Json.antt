-- ===== src/Prelude/Json.antt =====
-- The values that the program hands to `json.dumps`. A text is held as its UTF-8 bytes. An object
-- is held with its members in the order of their keys, as `sort_keys=True` writes them.
-- `num n` is the integer n, and `neg n` is -(n + 1).
use Prim.Native.Nat.{ℕ}
use Prim.Native.Char.{code}
use Prim.Native.String.{String}
use mathlib.Core.Bool.{Bool}
use fathomline.Prelude.Tests.{Eq, ℕ_eq, list_beq, list_beq_iff}
use mathlib.Core.List.{List, [], ◌∷◌}
use mathlib.Core.Option.{Option, none, some}

abbrev pub Text : Type 0
Text = List ℕ

instance abbrev pub Text_eq : Eq Text
Text_eq = record { beq = list_beq; beq_iff = list_beq_iff }

-- The bytes of an ASCII literal.
abbrev pub codes : String → Text
codes String.[] = []
codes (String.◌∷◌ c s) = code c ∷ codes s

mutual
  pub data Json : Type 0 where
    null : Json
    bool : Bool → Json
    num : ℕ → Json
    neg : ℕ → Json
    str : Text → Json
    arr : Items → Json
    obj : Members → Json

  pub data Items : Type 0 where
    nil : Items
    cons : Json → Items → Items

  pub data Members : Type 0 where
    end : Members
    member : Text → Json → Members → Members

abbrev pub opt_str : Option Text → Json
opt_str none = null
opt_str (some t) = str t

abbrev pub items_of : List Json → Items
items_of [] = nil
items_of (v ∷ vs) = cons v (items_of vs)

pub data ℤ : Type 0 where
  pos negsuc : ℕ → ℤ

abbrev pub int : ℤ → Json
int (pos n) = num n
int (negsuc n) = neg n
