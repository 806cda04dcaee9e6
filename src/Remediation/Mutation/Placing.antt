-- ===== src/Remediation/Mutation/Placing.antt =====
-- The move of agent/actor/executor.py, over calls that do what POSIX says.
use fathomline.Prelude.{
  ℕ, true, false, Option, none, some, ◌≡◌, ◌≢◌, ◌⊎◌, inl, inr, refl, arith, ℕ_eq, Bool-cases,
}
use fathomline.Prelude.Json.{Text, Text_eq}
use fathomline.Remediation.Os.{Os, Made, made, exists}
use fathomline.Remediation.Os.Posix.{same_place, inode_at, KeepsAll, KeepsBut, IsPosix}
use fathomline.Remediation.Mutation.{after_unlink, after_link, Status, moved, place}

module _ (os : Os) (laws : IsPosix os) where
  open laws use {mkdir_keeps, link_made, link_keeps, unlink_done, unlink_keeps, unlink_failed}

  Made-cases : (m : Made) → (m ≡ made) ⊎ (m ≢ made)
  Made-cases made = inl refl
  Made-cases exists = inr (λ e. cc)
  Made-cases (Made.refused x) = inr (λ e. cc)

  same_inode :
      (fs : os.Fs) (d : ℕ) (n : Text) (e : ℕ) (m : Text)
      → same_place d n e m ≡ true
      → inode_at os fs d n ≡ inode_at os fs e m
  same_inode fs d n e m p =
      let q : d ≡ e = ground arith in
      let r : n ≡ m = (Text_eq.beq_iff n m).0 (ground arith) in λ j. inode_at os fs (q j) (r j)

  -- A place that is free is no place that a file stands at.
  pub apart :
      (fs : os.Fs) (d : ℕ) (n : Text) (e : ℕ) (m : Text) {i : ℕ}
      → inode_at os fs d n ≡ none
      → inode_at os fs e m ≡ some i
      → same_place d n e m ≡ false
  apart fs d n e m free there = elim (Bool-cases (same_place d n e m)) [
    | inl p ↦ absurd (ground (arith, same_inode fs d n e m p))
    | inr p ↦ p
  ]

  pub apart_from_free :
      (fs : os.Fs) (d : ℕ) (n : Text) (e : ℕ) (m : Text) {i : ℕ}
      → inode_at os fs d n ≡ some i
      → inode_at os fs e m ≡ none
      → same_place d n e m ≡ false
  apart_from_free fs d n e m there free = elim (Bool-cases (same_place d n e m)) [
    | inl p ↦ absurd (ground (arith, same_inode fs d n e m p))
    | inr p ↦ p
  ]

  -- A file has come to a free place, and but for the place that it had, every name is kept.
  pub record Moved (src : ℕ) (name : Text) (dir : ℕ) (leaf : Text) (fs fs' : os.Fs) : Type 0 where
    pub inode : ℕ
    pub was_there : inode_at os fs src name ≡ some inode
    pub was_free : inode_at os fs dir leaf ≡ none
    pub is_here : inode_at os fs' dir leaf ≡ some inode
    pub is_gone : inode_at os fs' src name ≡ none
    pub others : KeepsBut os src name fs fs'

  module _ (fs : os.Fs) (src : ℕ) (name : Text) (dir : ℕ) (leaf there : Text) where
    abbrev linked : os.Fs
    linked = (os.link_at fs src name dir leaf).1

    abbrev left : os.Fs
    left = (os.unlink_at linked src name).1

    unlinked-Moved :
        (os.link_at fs src name dir leaf).0 ≡ made
        → (os.unlink_at linked src name).0 ≡ none
        → Moved src name dir leaf fs left
    unlinked-Moved m u =
        let (i, at, free, here) = link_made fs src name dir leaf m in
        record {
          inode = i;
          was_there = at;
          was_free = free;
          is_here =
              unlink_keeps linked src name dir leaf i (apart_from_free fs src name dir leaf at free)
                here;
          is_gone = unlink_done linked src name u;
          others = λ e n j other h.
              unlink_keeps linked src name e n j other (link_keeps fs src name dir leaf e n j h);
        }

    undone-KeepsAll :
        {x : ℕ}
        → (os.link_at fs src name dir leaf).0 ≡ made
        → (os.unlink_at linked src name).0 ≡ some x
        → KeepsAll os fs (os.unlink_at left dir leaf).1
    undone-KeepsAll m u e n j h =
        let (i, at, free, here) = link_made fs src name dir leaf m in
        unlink_keeps left dir leaf e n j (apart fs dir leaf e n free h)
          (rw (unlink_failed linked src name _ u) (link_keeps fs src name dir leaf e n j h))

  -- What a move comes to: the file is moved and reported as moved, or it is not reported as moved
  -- and no name has lost its file.
  pub data MoveResult (src : ℕ) (name : Text) (fs : os.Fs) : (Status × Text) × os.Fs → Type 0 where
    done :
        {t : Text} {fs₁ fs' : os.Fs} (dir : ℕ) (leaf : Text)
        → KeepsAll os fs fs₁
        → Moved src name dir leaf fs₁ fs'
        → MoveResult src name fs ((moved, t), fs')
    not_done :
        {s : Status} {t : Text} {fs' : os.Fs}
        → s ≢ moved
        → KeepsAll os fs fs'
        → MoveResult src name fs ((s, t), fs')

  module _ (fs₀ fs : os.Fs) (src : ℕ) (name : Text) (dir : ℕ) (leaf there : Text)
      (kept : KeepsAll os fs₀ fs) where
    unlink-MoveResult :
        (u : Option ℕ)
        → (os.link_at fs src name dir leaf).0 ≡ made
        → (os.unlink_at (linked fs src name dir leaf there) src name).0 ≡ u
        → MoveResult src name fs₀
            (after_unlink os (u, left fs src name dir leaf there) dir leaf there)
    unfolding after_unlink
    unlink-MoveResult none m u = done dir leaf kept (unlinked-Moved fs src name dir leaf there m u)
    unlink-MoveResult (some x) m u =
        not_done (λ e. cc)
          (λ e n i h. undone-KeepsAll fs src name dir leaf there m u e n i (kept e n i h))

    link-MoveResult :
        (m : Made)
        → (os.link_at fs src name dir leaf).0 ≡ m
        → MoveResult src name fs₀
            (after_link os (m, linked fs src name dir leaf there) src name dir leaf there)
    unfolding after_link
    link-MoveResult made e = unlink-MoveResult _ e refl
    link-MoveResult exists e =
        not_done (λ q. cc) (λ d n i h. link_keeps fs src name dir leaf d n i (kept d n i h))
    link-MoveResult (Made.refused x) e =
        not_done (λ q. cc) (λ d n i h. link_keeps fs src name dir leaf d n i (kept d n i h))

    pub place-MoveResult : MoveResult src name fs₀ (place os fs src name dir leaf there)
    unfolding place
    place-MoveResult = link-MoveResult _ refl
