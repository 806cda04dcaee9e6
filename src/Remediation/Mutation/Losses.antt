-- ===== src/Remediation/Mutation/Losses.antt =====
-- What a mutation of agent/actor/executor.py does to the names that it is not about, and to its own
-- when it does not succeed.
use fathomline.Prelude.{
  ℕ, Bool, true, false, Option, none, some, ◌≡◌, refl, sym, subst, Bool-cases, inl, inr,
}
use fathomline.Prelude.Json.{Text, Text_eq}
use fathomline.Prelude.Effect.{Outcome, ok, raised}
use fathomline.Remediation.Plan.{
  PlanAction, quarantine, hardlink, hard_delete, move, PlanItem, RemediationPlan,
}
use fathomline.Remediation.Os.{Os, Opened, fd}
use fathomline.Remediation.Os.Posix.{inode_at, KeepsAll, IsPosix}
use fathomline.Remediation.Mutation.{
  Status, quarantined, deleted, moved, aborted_drift, skipped_disabled, Fault, Settings, mutate,
  quarantine_file, renamed, unlinked, dest_name,
}
use fathomline.Remediation.Mutation.Placing.{Moved, MoveResult, done, not_done}
use fathomline.Remediation.Mutation.Moving.{move_file-MoveResult}

abbrev pub finished : Outcome Fault (Status × Text) → Bool
finished (ok (quarantined, t)) = true
finished (ok (deleted, t)) = true
finished (ok (moved, t)) = true
finished (ok (aborted_drift, t)) = false
finished (ok (skipped_disabled, t)) = false
finished (raised f) = false

module _ (os : Os) (laws : IsPosix os) (fs : os.Fs) where
  abbrev Spared : Outcome Fault (Status × Text) × os.Fs → Type 0
  Spared r = finished r.0 ≡ false → KeepsAll os fs r.1

  same-KeepsAll : (fs' : os.Fs) → fs' ≡ fs → KeepsAll os fs fs'
  same-KeepsAll fs' e d n i h = subst (λ f. inode_at os f d n ≡ some i) (sym e) h

  quarantine-Spared :
      (dir : ℕ) (name qdir dest : Text) (o : Opened)
      → Spared (quarantine_file os fs dir name qdir dest o)
  unfolding quarantine_file
  quarantine-Spared dir name qdir dest (Opened.refused x) = λ f d n i h. h
  quarantine-Spared dir name qdir dest (fd q) = by_errno (os.rename_at fs dir name q dest).0 refl
    where
      by_errno :
          (r : Option ℕ)
          → (os.rename_at fs dir name q dest).0 ≡ r
          → Spared (renamed os qdir dest (r, (os.rename_at fs dir name q dest).1))
      by_errno none e f = cc
      by_errno (some x) e f = same-KeepsAll _ (laws.rename_failed fs dir name q dest x e)

  unlink-Spared :
      (dir : ℕ) (name : Text) (r : Option ℕ)
      → (os.unlink_at fs dir name).0 ≡ r
      → Spared (unlinked os (r, (os.unlink_at fs dir name).1))
  unlink-Spared dir name none e f = cc
  unlink-Spared dir name (some x) e f = same-KeepsAll _ (laws.unlink_failed fs dir name x e)

  move-Spared :
      {src : ℕ} {name : Text} {r : (Status × Text) × os.Fs}
      → MoveResult os laws src name fs r
      → Spared (ok r.0, r.1)
  move-Spared (done dir leaf kept m) f = cc
  move-Spared (not_done s kept) f = kept

  -- Over calls that do what POSIX says: whenever a mutation does not report that it quarantined,
  -- deleted or moved the file, be it for an error, a refusal or an exception, every name that
  -- stood for a file still stands for it, that of the item included.
  pub mutate-Spared :
      (cfg : Settings) (dir : ℕ) (name : Text) (plan : RemediationPlan) (item : PlanItem)
      (action : PlanAction)
      → finished (mutate os cfg fs dir name plan item action).0 ≡ false
      → KeepsAll os fs (mutate os cfg fs dir name plan item action).1
  unfolding mutate
  mutate-Spared cfg dir name plan item quarantine =
      quarantine-Spared dir name cfg.quarantine_dir (dest_name plan item name)
        (os.open_directory fs cfg.quarantine_dir)
  mutate-Spared cfg dir name plan item hard_delete = elim (Bool-cases cfg.allow_hard_delete) [
    | inl on ↦ rw on (unlink-Spared dir name _ refl)
    | inr off ↦ rw off (λ f d n i h. h)
  ]
  mutate-Spared cfg dir name plan item move =
      move-Spared (move_file-MoveResult os laws fs dir name plan.move_root item.dest_rel)
  mutate-Spared cfg dir name plan item hardlink = λ f d n i h. h

  renamed-Moved :
      (dir : ℕ) (name qdir : Text) (q : ℕ) (dest : Text) (r : Option ℕ) {t : Text}
      → (os.rename_at fs dir name q dest).0 ≡ r
      → inode_at os fs q dest ≡ none
      → (renamed os qdir dest (r, (os.rename_at fs dir name q dest).1)).0 ≡ ok (quarantined, t)
      → Moved os laws dir name q dest fs
          (renamed os qdir dest (r, (os.rename_at fs dir name q dest).1)).1
  renamed-Moved dir name qdir q dest (some x) e free h = cc
  renamed-Moved dir name qdir q dest none e free h =
      let (i, at, here, gone, others) = laws.rename_done fs dir name q dest free e in
      record {
        inode = i;
        was_there = at;
        was_free = free;
        is_here = here;
        is_gone = gone;
        others = others;
      }

  quarantine_file-Moved :
      (dir : ℕ) (name qdir : Text) (q : ℕ) (dest : Text) (o : Opened) {t : Text}
      → o ≡ fd q
      → inode_at os fs q dest ≡ none
      → (quarantine_file os fs dir name qdir dest o).0 ≡ ok (quarantined, t)
      → Moved os laws dir name q dest fs (quarantine_file os fs dir name qdir dest o).1
  quarantine_file-Moved dir name qdir q dest o {t} e free =
      subst
        (λ v.
          (quarantine_file os fs dir name qdir dest v).0 ≡ ok (quarantined, t)
          → Moved os laws dir name q dest fs (quarantine_file os fs dir name qdir dest v).1)
        (sym e)
        (unfold quarantine_file in
          renamed-Moved dir name qdir q dest (os.rename_at fs dir name q dest).0 refl free)

  -- Over calls that do what POSIX says, and when the quarantine directory can be opened and the
  -- name in it was free: a file reported as quarantined stands there under the plan's id, its
  -- inode number and its name, is gone from its own directory, and no other name has lost its
  -- file.
  pub quarantined-Moved :
      (cfg : Settings) (dir : ℕ) (name : Text) (plan : RemediationPlan) (item : PlanItem) (q : ℕ)
      {t : Text}
      → os.open_directory fs cfg.quarantine_dir ≡ fd q
      → inode_at os fs q (dest_name plan item name) ≡ none
      → (mutate os cfg fs dir name plan item quarantine).0 ≡ ok (quarantined, t)
      → Moved os laws dir name q
          (dest_name plan item name)
          fs
          (mutate os cfg fs dir name plan item quarantine).1
  unfolding mutate
  quarantined-Moved cfg dir name plan item q o free h =
      quarantine_file-Moved dir name cfg.quarantine_dir q (dest_name plan item name)
        (os.open_directory fs cfg.quarantine_dir) o free h
