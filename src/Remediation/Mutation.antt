-- ===== src/Remediation/Mutation.antt =====
-- `_mutate` and `_move` of agent/actor/executor.py: what is done to the files. Closing descriptors is
-- left out.
pub mod Placing
pub mod Moving
pub mod Losses
use fathomline.Prelude.{
  ℕ, Bool, true, false, not, ◌&&◌, ◌||◌, Option, none, some, List, [], ◌∷◌, ◌++◌, keep, any, length,
  if◌then◌else◌, Eq, ◌==◌, ℕ_eq, ltb,
}
use fathomline.Prelude.Json.{Text, Text_eq, codes, Json, num, obj, member, end, opt_str}
use fathomline.Prelude.Path.{slash, split, rstrip, front_of, last_of}
use fathomline.Prelude.Effect.{
  Outcome, ok, raised, Effect, pure, raise, demand, asks, ◌>>=◌, ◌>>◌, and_then,
}
use fathomline.Audit.{AuditRecord, AuditChain, Codec, append}
use fathomline.Remediation.Plan.{
  PlanAction, quarantine, hardlink, hard_delete, move, action_value, int, str_of, PlanItem,
  RemediationPlan,
}
use fathomline.Remediation.Os.{Os, Stat, Opened, Made, fd, made, exists}
use fathomline.Remediation.Drift.{
  Drift, drift_text, missing, became_symlink, inode_changed, size_changed, hash_unreadable,
  hash_changed, no_hash_anchor,
}

pub data Status : Type 0 where
  quarantined deleted moved aborted_drift skipped_disabled : Status

abbrev pub status_text : Status → Text
status_text quarantined = codes "quarantined"
status_text deleted = codes "deleted"
status_text moved = codes "moved"
status_text aborted_drift = codes "aborted_drift"
status_text skipped_disabled = codes "skipped_disabled"

pub data Fault : Type 0 where
  remediation_disabled blast_radius audit_refused : Fault
  drifted_plan : List (Text × Drift) → Fault
  os_error : ℕ → Fault

pub record Settings : Type 0 where
  pub quarantine_dir : Text
  pub write_enabled : Bool
  pub blast_cap : ℕ
  pub allow_hard_delete : Bool
  pub actor : Text

abbrev pub errno_note : Text → ℕ → Text
errno_note what e = what ++ codes " (errno " ++ str_of (int e) ++ codes ")"

abbrev pub dest_name : RemediationPlan → PlanItem → Text → Text
dest_name plan item name =
    plan.plan_id ++ (codes "__" ++ (str_of (int item.prior_inode) ++ (codes "__" ++ name)))

abbrev dotted : Text → Bool
dotted p = p == codes ".." || p == codes "."

abbrev not_empty : Text → Bool
not_empty [] = false
not_empty (b ∷ t) = true

module _ (os : Os) where
  abbrev opened : os.Fs → Opened → Outcome ℕ ℕ × os.Fs
  opened fs (fd n) = (ok n, fs)
  opened fs (Opened.refused e) = (raised e, fs)

  pub after_mkdir : Made × os.Fs → ℕ → Text → Outcome ℕ ℕ × os.Fs
  after_mkdir (Made.refused e, fs) cur name = (raised e, fs)
  after_mkdir (made, fs) cur name = opened fs (os.open_at fs cur name)
  after_mkdir (exists, fs) cur name = opened fs (os.open_at fs cur name)

  -- One directory of a destination, made if it is missing and entered.
  pub enter : os.Fs → ℕ → Text → Outcome ℕ ℕ × os.Fs
  unfolding after_mkdir
  enter fs cur name = after_mkdir (os.mkdir_at fs cur name) cur name

  abbrev proceed : Outcome ℕ ℕ × os.Fs → (os.Fs → ℕ → Outcome ℕ ℕ × os.Fs) → Outcome ℕ ℕ × os.Fs
  proceed (ok next, fs) rest = rest fs next
  proceed (raised e, fs) rest = (raised e, fs)

  pub walk : os.Fs → ℕ → List Text → Outcome ℕ ℕ × os.Fs
  unfolding enter
  walk fs cur [] = (ok cur, fs)
  walk fs cur (name ∷ names) = proceed (enter fs cur name) (λ fs' next. walk fs' next names)

  -- The file is linked at its destination and unlinked at its source; when the second fails the
  -- first is undone.
  pub after_unlink : Option ℕ × os.Fs → ℕ → Text → Text → (Status × Text) × os.Fs
  after_unlink (none, fs) dir leaf there = ((moved, there), fs)
  after_unlink (some e, fs) dir leaf there = (
    (aborted_drift, errno_note (codes "move source-unlink failed") e),
    (os.unlink_at fs dir leaf).1,
  )

  pub after_link : Made × os.Fs → ℕ → Text → ℕ → Text → Text → (Status × Text) × os.Fs
  unfolding after_unlink
  after_link (made, fs) src name dir leaf there =
      after_unlink (os.unlink_at fs src name) dir leaf there
  after_link (exists, fs) src name dir leaf there =
      ((aborted_drift, codes "destination already exists (no-clobber)"), fs)
  after_link (Made.refused e, fs) src name dir leaf there =
      ((aborted_drift, errno_note (codes "move refused") e), fs)

  pub place : os.Fs → ℕ → Text → ℕ → Text → Text → (Status × Text) × os.Fs
  unfolding after_link
  place fs src name dir leaf there =
      after_link (os.link_at fs src name dir leaf) src name dir leaf there

  setup_failed : ℕ → Status × Text
  setup_failed e = (aborted_drift, errno_note (codes "move setup failed") e)

  pub place_in : Outcome ℕ ℕ × os.Fs → ℕ → Text → Text → Text → (Status × Text) × os.Fs
  unfolding place setup_failed
  place_in (raised e, fs) src name leaf there = (setup_failed e, fs)
  place_in (ok dir, fs) src name leaf there = place fs src name dir leaf there

  pub walk_from : os.Fs → Opened → List Text → Outcome ℕ ℕ × os.Fs
  unfolding walk
  walk_from fs (Opened.refused e) names = (raised e, fs)
  walk_from fs (fd root) names = walk fs root names

  pub move_parts : os.Fs → ℕ → Text → Text → Text → List Text → (Status × Text) × os.Fs
  unfolding place_in walk_from
  move_parts fs src name root dest [] = ((aborted_drift, codes "invalid destination"), fs)
  move_parts fs src name root dest (p ∷ ps) =
      if any dotted (p ∷ ps)
      then ((aborted_drift, codes "invalid destination"), fs)
      else place_in (walk_from fs (os.open_nofollow fs root) (front_of p ps)) src name
          (last_of p ps) (rstrip slash root ++ (slash ∷ dest))

  -- `_move`; a root or a destination that is absent or empty is refused.
  pub move_file : os.Fs → ℕ → Text → Option Text → Option Text → (Status × Text) × os.Fs
  unfolding move_parts
  move_file fs src name (some (b ∷ root)) (some (c ∷ dest)) =
      move_parts fs src name (b ∷ root) (c ∷ dest) (keep not_empty (split slash (c ∷ dest)))
  move_file fs src name _ _ = ((skipped_disabled, codes "move requires move_root + dest_rel"), fs)

  abbrev renamed : Text → Text → Option ℕ × os.Fs → Outcome Fault (Status × Text) × os.Fs
  renamed dir dest (none, fs) = (ok (quarantined, dir ++ (slash ∷ dest)), fs)
  renamed dir dest (some e, fs) =
      (ok (aborted_drift, errno_note (codes "quarantine refused") e), fs)

  abbrev unlinked : Option ℕ × os.Fs → Outcome Fault (Status × Text) × os.Fs
  unlinked (none, fs) = (ok (deleted, []), fs)
  unlinked (some e, fs) = (ok (aborted_drift, errno_note (codes "hard_delete refused") e), fs)

  -- The directory is opened outside the `try`, so its OSError leaves `_mutate`.
  pub quarantine_file :
      os.Fs → ℕ → Text → Text → Text → Opened → Outcome Fault (Status × Text) × os.Fs
  quarantine_file fs dir name qdir dest (Opened.refused e) = (raised (os_error e), fs)
  quarantine_file fs dir name qdir dest (fd q) = renamed qdir dest (os.rename_at fs dir name q dest)

  unfoldable pub mutate :
      Settings
      → os.Fs
      → ℕ
      → Text
      → RemediationPlan
      → PlanItem
      → PlanAction
      → Outcome Fault (Status × Text) × os.Fs
  unfolding quarantine_file move_file
  mutate cfg fs dir name plan item quarantine =
      quarantine_file fs dir name cfg.quarantine_dir (dest_name plan item name)
        (os.open_directory fs cfg.quarantine_dir)
  mutate cfg fs dir name plan item hard_delete =
      if not cfg.allow_hard_delete
      then (ok (skipped_disabled, codes "hard_delete requires allow_hard_delete"), fs)
      else unlinked (os.unlink_at fs dir name)
  mutate cfg fs dir name plan item move =
      let (r, fs') = move_file fs dir name plan.move_root item.dest_rel in (ok r, fs')
  mutate cfg fs dir name plan item hardlink =
      (ok (skipped_disabled, codes "action hardlink not implemented in v1"), fs)
