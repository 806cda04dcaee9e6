-- ===== src/Catalogue/Rollup/Tidy.antt =====
-- Paths beneath a mount point that stripping slashes leaves as they are, for core/rollup.py.
use mathlib.Core.List.{append_assoc, append-nil}
use fathomline.Prelude.{
  ℕ, zero, suc, ◌≤◌, true, [], ◌∷◌, ◌++◌, length, length-append, ◌≡◌, refl, arith, ap, sym, ◌∙◌,
  Bool-cases, inl, inr, ◌==◌, ℕ_eq,
}
use fathomline.Prelude.Json.{Text, Text_eq}
use fathomline.Prelude.Path.{slash, lstrip, rstrip, strip, starts_with, drop, cons_unless_empty}
use fathomline.Catalogue.Rollup.{rel_to}
use fathomline.Catalogue.Rollup.Distinct.{IsMount}

pub starts_with-append : (p u : Text) → starts_with p (p ++ u) ≡ true
unfolding starts_with
starts_with-append [] u = refl
starts_with-append (b ∷ p) u = ground (arith, starts_with-append p u)

pub starts_with-rest : (p t : Text) → starts_with p t ≡ true → (u : Text) × (t ≡ p ++ u)
unfolding starts_with
starts_with-rest [] t h = (t, refl)
starts_with-rest (b ∷ p) [] h = cc
starts_with-rest (b ∷ p) (c ∷ t) h =
    let (u, e) = starts_with-rest p t (ground (arith, h)) in
    let same : b ≡ c = ground (arith, h) in (u, λ i. sym same i ∷ e i)

pub append_cancel : (p u v : Text) → p ++ u ≡ p ++ v → u ≡ v
append_cancel [] u v e = e
append_cancel (b ∷ p) u v e = append_cancel p u v (cc)

drop-append : (p u : Text) → drop (length p) (p ++ u) ≡ u
drop-append [] u = refl
drop-append (b ∷ p) u = drop-append p u

abbrev slashes : ℕ → Text
slashes zero = []
slashes (suc n) = slash ∷ slashes n

put_back :
    (b : ℕ) (t r : Text) (n : ℕ)
    → t ≡ r ++ slashes n
    → (m : ℕ) × (b ∷ t ≡ cons_unless_empty (b == slash) b r ++ slashes m)
put_back b t [] n e = elim (Bool-cases (b == slash)) [
  | inl q ↦ let at : b ≡ slash = ground (arith, q) in (suc n, rw q (λ i. at i ∷ e i))
  | inr q ↦ (n, rw q (ap (λ x. b ∷ x) e))
]
put_back b t (c ∷ r) n e = (n, ap (λ x. b ∷ x) e)

-- A text is what `rstrip` leaves with some slashes after it.
rstrip-rest : (t : Text) → (n : ℕ) × (t ≡ rstrip slash t ++ slashes n)
unfolding rstrip
rstrip-rest [] = (0, refl)
rstrip-rest (b ∷ t) = let (n, e) = rstrip-rest t in put_back b t (rstrip slash t) n e

-- No slash at either end.
abbrev pub IsBare : Text → Type 0
IsBare rel = (lstrip slash rel ≡ rel) × (rstrip slash rel ≡ rel)

strip-slash : (rel : Text) → IsBare rel → strip slash (slash ∷ rel) ≡ rel
unfolding strip rstrip lstrip
strip-slash [] b = refl
strip-slash (c ∷ rel) b = rw b.1 b.0

strip-bare : (rel : Text) → IsBare rel → strip slash rel ≡ rel
unfolding strip
strip-bare rel b = rw b.1 b.0

length-slashes : (n : ℕ) → length (slashes n) ≡ n
length-slashes zero = refl
length-slashes (suc n) = omega (arith, length-slashes n)

rel_to-bare :
    (mount base rel : Text) (n : ℕ)
    → mount ≡ base ++ slashes n
    → n ≤ 1
    → IsBare rel
    → rel_to mount (base ++ (slash ∷ rel)) ≡ rel
rel_to-bare mount base rel zero m few b =
    let same : mount ≡ base = m ∙ append-nil base in
    rw (same, drop-append base (slash ∷ rel)) (strip-slash rel b)
rel_to-bare mount base rel (suc zero) m few b =
    rw (m, sym (append_assoc base (slash ∷ []) rel), drop-append (base ++ (slash ∷ [])) rel)
      (strip-bare rel b)
rel_to-bare mount base rel (suc (suc n)) m few b = absurd (omega (arith, few))

-- A path that lies beneath the mount point is the mount point without its last slashes, one slash, and a
-- text with no slash at either end; a path elsewhere is as it may be.
abbrev pub IsTidy : Text → Text → Type 0
IsTidy mount path =
    starts_with (rstrip slash mount ++ (slash ∷ [])) path ≡ true
    → (rel : Text) × (path ≡ rstrip slash mount ++ (slash ∷ rel)) × IsBare rel

pub rel_to-tidy :
    (mount rel : Text)
    → IsMount mount
    → IsBare rel
    → rel_to mount (rstrip slash mount ++ (slash ∷ rel)) ≡ rel
rel_to-tidy mount rel h b =
    let (n, m) = rstrip-rest mount in
    rel_to-bare mount (rstrip slash mount) rel n m
      (omega
        (arith, h, ap length m, length-append (rstrip slash mount) (slashes n), length-slashes n))
      b
