-- ===== src/Remediation/Recheck.antt =====
-- The drift checks on one file: `_recheck` of agent/actor/executor.py, through the descriptor of its
-- parent directory, just before the file is acted on.
pub mod Unchanged
use fathomline.Prelude.{
  ℕ, Bool, true, false, not, ◌&&◌, ◌||◌, Option, none, some, List, [], ◌∷◌, ◌++◌, keep, any, length,
  if◌then◌else◌, Eq, ◌==◌, ℕ_eq, ltb,
}
use fathomline.Prelude.Json.{Text, Text_eq, codes, Json, num, obj, member, end, opt_str}
use fathomline.Prelude.Path.{slash, split, rstrip, front_of, last_of}
use fathomline.Prelude.Effect.{
  Outcome, ok, raised, Effect, pure, raise, demand, asks, ◌>>=◌, ◌>>◌, and_then,
}
use fathomline.Audit.{AuditRecord, AuditChain, Codec, append}
use fathomline.Remediation.Plan.{
  PlanAction, quarantine, hardlink, hard_delete, move, action_value, int, str_of, PlanItem,
  RemediationPlan,
}
use fathomline.Remediation.Os.{Os, Stat, Opened, Made, fd, made, exists}
use fathomline.Remediation.Drift.{
  Drift, drift_text, missing, became_symlink, inode_changed, size_changed, hash_unreadable,
  hash_changed, no_hash_anchor,
}

abbrev pub is_hard_delete : PlanAction → Bool
is_hard_delete hard_delete = true
is_hard_delete _ = false

module _ (os : Os) (k : Codec) where
  -- `_full_hash_through_fd`: the digest of all that the reads through the descriptor return.
  full_hash_through_fd : os.Fs → ℕ → Text → Option Text
  full_hash_through_fd fs dir name = elim (os.read_at fs dir name) [
    | none ↦ none
    | some content ↦ some (k.blake3 content)
  ]

  abbrev hash_drift : Text → Option Text → Option Drift
  hash_drift prior none = some hash_unreadable
  hash_drift prior (some current) = if current == prior then none else some hash_changed

  content_drift : os.Fs → ℕ → Text → PlanAction → Option Text → Option Drift
  unfolding full_hash_through_fd
  content_drift fs dir name action (some prior) =
      hash_drift prior (full_hash_through_fd fs dir name)
  content_drift fs dir name action none =
      if is_hard_delete action then some no_hash_anchor else none

  unfoldable pub stat_drift : os.Fs → ℕ → Text → PlanItem → Option Stat → Option Drift
  unfolding content_drift
  stat_drift fs dir name item none = some missing
  stat_drift fs dir name item (some st) =
      if st.is_link
      then some became_symlink
      else if not (st.ino == item.prior_inode)
      then some inode_changed
      else if not (st.size == item.prior_size)
      then some size_changed
      else content_drift fs dir name item.action item.prior_hash

  unfoldable pub recheck : os.Fs → ℕ → Text → PlanItem → Option Drift
  unfolding stat_drift
  recheck fs dir name item = stat_drift fs dir name item (os.lstat_at fs dir name)
