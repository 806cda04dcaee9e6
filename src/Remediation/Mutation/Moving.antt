-- ===== src/Remediation/Mutation/Moving.antt =====
-- The whole of `_move` of agent/actor/executor.py: the walk to the destination and the placing.
use fathomline.Prelude.{
  ℕ, Option, some, List, [], ◌∷◌, ◌≡◌, inl, inr, refl, sym, subst, ℕ_eq, Bool-cases, keep, any,
  ◌++◌,
}
use fathomline.Prelude.Json.{Text, Text_eq}
use fathomline.Prelude.Effect.{Outcome, ok, raised}
use fathomline.Remediation.Os.{Os, Opened, Made, fd, made, exists}
use fathomline.Remediation.Os.Posix.{inode_at, KeepsAll, IsPosix}
use fathomline.Prelude.Path.{slash, split, rstrip, front_of, last_of}
use fathomline.Remediation.Mutation.{
  proceed, dotted, not_empty, opened, after_mkdir, enter, walk, walk_from, place_in, move_parts,
  move_file,
}
use fathomline.Remediation.Mutation.Placing.{MoveResult, not_done, place-MoveResult}

module _ (os : Os) (laws : IsPosix os) where
  opened-fs : (fs : os.Fs) (o : Opened) → (opened os fs o).1 ≡ fs
  opened-fs fs (fd n) = refl
  opened-fs fs (Opened.refused e) = refl

  after_mkdir-fs : (r : Made × os.Fs) (cur : ℕ) (n : Text) → (after_mkdir os r cur n).1 ≡ r.1
  unfolding after_mkdir
  after_mkdir-fs (made, fs) cur n = opened-fs fs (os.open_at fs cur n)
  after_mkdir-fs (exists, fs) cur n = opened-fs fs (os.open_at fs cur n)
  after_mkdir-fs (Made.refused x, fs) cur n = refl

  enter-KeepsAll : (fs : os.Fs) (cur : ℕ) (n : Text) → KeepsAll os fs (enter os fs cur n).1
  unfolding enter
  enter-KeepsAll fs cur n e m i h =
      subst (λ f. inode_at os f e m ≡ some i) (sym (after_mkdir-fs (os.mkdir_at fs cur n) cur n))
        (laws.mkdir_keeps fs cur n e m i h)

  proceed-KeepsAll :
      (fs : os.Fs) (r : Outcome ℕ ℕ × os.Fs) (rest : os.Fs → ℕ → Outcome ℕ ℕ × os.Fs)
      → KeepsAll os fs r.1
      → ((next : ℕ) → KeepsAll os r.1 (rest r.1 next).1)
      → KeepsAll os fs (proceed os r rest).1
  proceed-KeepsAll fs (ok next, fs') rest k l e m i h = l next e m i (k e m i h)
  proceed-KeepsAll fs (raised x, fs') rest k l e m i h = k e m i h

  walk-KeepsAll :
      (fs : os.Fs) (cur : ℕ) (names : List Text) → KeepsAll os fs (walk os fs cur names).1
  unfolding walk
  walk-KeepsAll fs cur [] e m i h = h
  walk-KeepsAll fs cur (n ∷ names) e m i h =
      proceed-KeepsAll fs (enter os fs cur n) (λ fs' next. walk os fs' next names)
        (enter-KeepsAll fs cur n) (λ next. walk-KeepsAll (enter os fs cur n).1 next names) e m i h

  walk_from-KeepsAll :
      (fs : os.Fs) (o : Opened) (names : List Text) → KeepsAll os fs (walk_from os fs o names).1
  unfolding walk_from
  walk_from-KeepsAll fs (Opened.refused x) names e m i h = h
  walk_from-KeepsAll fs (fd root) names e m i h = walk-KeepsAll fs root names e m i h

  place_in-MoveResult :
      (fs : os.Fs) (r : Outcome ℕ ℕ × os.Fs) (src : ℕ) (name leaf there : Text)
      → KeepsAll os fs r.1
      → MoveResult os laws src name fs (place_in os r src name leaf there)
  unfolding place_in
  place_in-MoveResult fs (ok dir, fs') src name leaf there k =
      place-MoveResult os laws fs fs' src name dir leaf there k
  place_in-MoveResult fs (raised x, fs') src name leaf there k = not_done (λ q. cc) k

  move_parts-MoveResult :
      (fs : os.Fs) (src : ℕ) (name root dest : Text) (parts : List Text)
      → MoveResult os laws src name fs (move_parts os fs src name root dest parts)
  unfolding move_parts
  move_parts-MoveResult fs src name root dest [] = not_done (λ q. cc) (λ e m i h. h)
  move_parts-MoveResult fs src name root dest (p ∷ ps) = elim (Bool-cases (any dotted (p ∷ ps))) [
    | inl d ↦ rw d (not_done (λ q. cc) (λ e m i h. h))
    | inr d ↦ rw d (
        place_in-MoveResult fs (walk_from os fs (os.open_nofollow fs root) (front_of p ps)) src name
          (last_of p ps) (rstrip slash root ++ (slash ∷ dest))
          (walk_from-KeepsAll fs (os.open_nofollow fs root) (front_of p ps)))
  ]

  -- Over calls that do what POSIX says: a move either is reported as moved, and then the file has
  -- come to a place that was free while every other name kept its file, or is not reported as
  -- moved, and then no name, the file's own included, has lost its file, also where the unlinking
  -- failed half way.
  pub move_file-MoveResult :
      (fs : os.Fs) (src : ℕ) (name : Text) (root dest : Option Text)
      → MoveResult os laws src name fs (move_file os fs src name root dest)
  unfolding move_file
  move_file-MoveResult fs src name (some (b ∷ root)) (some (c ∷ dest)) =
      move_parts-MoveResult fs src name (b ∷ root) (c ∷ dest)
        (keep not_empty (split slash (c ∷ dest)))
  move_file-MoveResult fs src name _ _ = not_done (λ q. cc) (λ e m i h. h)
