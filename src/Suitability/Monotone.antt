-- ===== src/Suitability/Monotone.antt =====
-- The ratings of core/suitability.py for a host that has more.
use fathomline.Prelude.{ℕ, ◌≤◌, Bool, Option, none, some, List, [], ◌∷◌, ◌≡◌, refl, arith}
use fathomline.Prelude.Json.{Text}
use fathomline.Suitability.{
  Rating, green, amber, red, HostFacts, OptionAssessment, assess_local_small, assess_local_large,
  assess_embeddings, assess_known, assess,
}

abbrev pub rank : Rating → ℕ
rank red = 0
rank amber = 1
rank green = 2

-- One option after the other, the rating is no worse.
abbrev pub NoWorse : List OptionAssessment → List OptionAssessment → Type 0
NoWorse [] [] = Unit
NoWorse (a ∷ worse) (b ∷ better) =
    (a.key ≡ b.key) × (rank a.rating ≤ rank b.rating) × NoWorse worse better
NoWorse _ _ = ⊥

-- The estate is no larger, or its size is not known in either case.
abbrev pub NoLarger : Option ℕ → Option ℕ → Type 0
NoLarger none none = Unit
NoLarger (some a) (some b) = a ≤ b
NoLarger _ _ = ⊥

abbrev pub known_facts : ℕ → ℕ → HostFacts
known_facts ram vram = record { cpu_cores = none; ram_bytes = some ram; gpu_vram_bytes = some vram }

small_no_worse :
    (ram ram' vram vram' : ℕ)
    → ram ≤ ram'
    → vram ≤ vram'
    → rank (assess_local_small ram vram).rating ≤ rank (assess_local_small ram' vram').rating
unfolding assess_local_small
small_no_worse ram ram' vram vram' h k = ground arith

large_no_worse :
    (ram ram' vram vram' : ℕ)
    → ram ≤ ram'
    → vram ≤ vram'
    → rank (assess_local_large ram vram).rating ≤ rank (assess_local_large ram' vram').rating
unfolding assess_local_large
large_no_worse ram ram' vram vram' h k = ground arith

module _ (gb : ℕ → Text) where
  embeddings_no_worse :
      (ram ram' : ℕ) (c c' : Option ℕ)
      → ram ≤ ram'
      → NoLarger c' c
      → rank (assess_embeddings gb ram c).rating ≤ rank (assess_embeddings gb ram' c').rating
  unfolding assess_embeddings
  embeddings_no_worse ram ram' none none h k = ground arith
  embeddings_no_worse ram ram' (some a) (some b) h k = ground arith
  embeddings_no_worse ram ram' none (some b) h k = absurd k
  embeddings_no_worse ram ram' (some a) none h k = absurd k

  -- A host whose hardware is known, with no less RAM and no less VRAM and an estate that is no larger,
  -- is rated no worse in any option, whatever is allowed to leave the hosts.
  pub assess-NoWorse :
      (ram ram' vram vram' : ℕ) (c c' : Option ℕ) (e e' : Bool)
      → ram ≤ ram'
      → vram ≤ vram'
      → NoLarger c' c
      → NoWorse
          (assess gb (known_facts ram vram) c e).options
          (assess gb (known_facts ram' vram') c' e').options
  unfolding assess assess_known
  assess-NoWorse ram ram' vram vram' c c' e e' h k m = (
    (unfold assess_local_small in refl),
    small_no_worse ram ram' vram vram' h k,
    (
      (unfold assess_local_large in refl),
      large_no_worse ram ram' vram vram' h k,
      (
        refl,
        omega arith,
        ((unfold assess_embeddings in refl), embeddings_no_worse ram ram' c c' h m, tt),
      ),
    ),
  )
