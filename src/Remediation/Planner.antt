-- ===== src/Remediation/Planner.antt =====
-- agent/actor/planner.py: the dry run. The hasher may be absent, and may raise an OSError.
pub mod Report
use fathomline.Prelude.{
  ℕ, Bool, true, false, not, ◌&&◌, Option, none, some, List, [], ◌∷◌, if◌then◌else◌, ◌==◌, ℕ_eq,
}
use fathomline.Prelude.Json.{Text, Text_eq}
use fathomline.Prelude.Dict.{put}
use fathomline.Prelude.Effect.{Outcome, ok, raised, bind}
use fathomline.Remediation.Plan.{str_of, PlanItem, RemediationPlan, is_empty}
use fathomline.Remediation.Os.{Os, Stat}
use fathomline.Remediation.Drift.{
  Drift, missing, became_symlink, inode_changed, size_changed, hash_changed,
}
use fathomline.Remediation.Mutation.{Fault, os_error}

abbrev pub VerifyReport : Type 0
VerifyReport = List (Text × Drift)

-- `report.ok`
abbrev pub report_ok : VerifyReport → Bool
report_ok drifted = is_empty drifted

module _ (os : Os) where
  -- `hasher.full(path)`: a digest, or the errno of an OSError.
  abbrev pub Hasher : Type 0
  Hasher = os.Fs → Text → Outcome ℕ Text

  abbrev digest_drift : Text → Outcome ℕ Text → Outcome Fault (Option Drift)
  digest_drift prior (raised e) = raised (os_error e)
  digest_drift prior (ok current) = ok (if not (current == prior) then some hash_changed else none)

  unfoldable pub hash_drift :
      os.Fs → Text → Bool → Option Text → Option Hasher → Outcome Fault (Option Drift)
  hash_drift fs path true (some prior) (some hasher) = digest_drift prior (hasher fs path)
  hash_drift fs path _ _ _ = ok none

  unfoldable pub stat_drift :
      os.Fs → PlanItem → Option Hasher → Bool → Option Stat → Outcome Fault (Option Drift)
  unfolding hash_drift
  stat_drift fs item hasher verify_hash none = ok (some missing)
  stat_drift fs item hasher verify_hash (some st) =
      if st.is_link
      then ok (some became_symlink)
      else if not (st.ino == item.prior_inode)
      then ok (some inode_changed)
      else if not (st.size == item.prior_size)
      then ok (some size_changed)
      else hash_drift fs item.path verify_hash item.prior_hash hasher

  unfoldable pub verify_item :
      os.Fs → PlanItem → Option Hasher → Bool → Outcome Fault (Option Drift)
  unfolding stat_drift
  verify_item fs item hasher verify_hash =
      stat_drift fs item hasher verify_hash (os.lstat fs item.path)

  abbrev pub noted : PlanItem → Option Drift → VerifyReport → VerifyReport
  noted item none report = report
  noted item (some reason) report = put (str_of item.entry_id) reason report

  -- The loop over the items; `report` is what it has found so far.
  unfoldable pub verify_items :
      os.Fs → List PlanItem → Option Hasher → Bool → VerifyReport → Outcome Fault VerifyReport
  verify_items fs [] hasher verify_hash report = ok report
  verify_items fs (item ∷ items) hasher verify_hash report =
      bind (verify_item fs item hasher verify_hash)
        (λ reason. verify_items fs items hasher verify_hash (noted item reason report))

  unfoldable pub dry_run_verify :
      os.Fs → RemediationPlan → Option Hasher → Bool → Outcome Fault VerifyReport
  unfolding verify_items
  dry_run_verify fs plan hasher verify_hash = verify_items fs plan.items hasher verify_hash []
