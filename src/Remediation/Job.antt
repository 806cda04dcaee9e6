-- ===== src/Remediation/Job.antt =====
-- core/remediation/job.py: the signed jobs and the bytes that a signature covers. A `datetime` is the
-- number of microseconds since an epoch, in UTC; `isoformat` is a parameter.
pub mod Sealing
use fathomline.Prelude.{ℕ, Bool, true, false, Option, none, some, List, [], ◌∷◌, ◌++◌, map}
use fathomline.Prelude.Json.{Text, codes, Json, str, num, arr, obj, member, end, opt_str, items_of}
use fathomline.Audit.{Codec}
use fathomline.Remediation.Plan.{action_value, str_of, PlanItem}

pub data JobMode : Type 0 where
  dry_run execute : JobMode

abbrev pub mode_text : JobMode → Text
mode_text dry_run = codes "dry_run"
mode_text execute = codes "execute"

pub data ScanMode : Type 0 where
  metadata fullbit : ScanMode

abbrev pub scan_mode_text : ScanMode → Text
scan_mode_text metadata = codes "metadata"
scan_mode_text fullbit = codes "fullbit"

pub record ActionJob : Type 0 where
  pub plan_id : Text
  pub mode : JobMode
  pub nonce : Text
  pub issued_at : ℕ
  pub expires_at : ℕ
  pub host_id : Text
  pub keeper_path : Text
  pub items : List PlanItem
  pub move_root : Option Text

pub record ScanJob : Type 0 where
  pub nonce : Text
  pub issued_at : ℕ
  pub expires_at : ℕ
  pub host_id : Text
  pub root : Text
  pub mode : ScanMode

abbrev item_json : PlanItem → Json
item_json i = obj (
    member (codes "action") (str (action_value i.action)) (
      member (codes "dest_rel") (opt_str i.dest_rel) (
        member (codes "entry_id") (str (str_of i.entry_id)) (
          member (codes "path") (str i.path) (
            member (codes "prior_hash") (opt_str i.prior_hash) (
              member (codes "prior_inode") (num i.prior_inode)
                (member (codes "prior_size") (num i.prior_size) end)))))))

pub data DispatchJob : Type 0 where
  action : ActionJob → DispatchJob
  scan : ScanJob → DispatchJob

module _ (k : Codec) (isoformat : ℕ → Text) where
  abbrev action_json : ActionJob → Json
  action_json j = obj (
      member (codes "expires_at") (str (isoformat j.expires_at)) (
        member (codes "host_id") (str j.host_id) (
          member (codes "issued_at") (str (isoformat j.issued_at)) (
            member (codes "items") (arr (items_of (map item_json j.items))) (
              member (codes "keeper_path") (str j.keeper_path) (
                member (codes "mode") (str (mode_text j.mode)) (
                  member (codes "move_root") (opt_str j.move_root) (
                    member (codes "nonce") (str j.nonce)
                      (member (codes "plan_id") (str j.plan_id) end)))))))))

  abbrev scan_json : ScanJob → Json
  scan_json j = obj (
      member (codes "expires_at") (str (isoformat j.expires_at)) (
        member (codes "host_id") (str j.host_id) (
          member (codes "issued_at") (str (isoformat j.issued_at)) (
            member (codes "kind") (str (codes "scan_now")) (
              member (codes "mode") (str (scan_mode_text j.mode))
                (member (codes "nonce") (str j.nonce) (member (codes "root") (str j.root) end)))))))

  unfoldable pub canonical_bytes : DispatchJob → Text
  canonical_bytes (action j) = k.dumps (action_json j)
  canonical_bytes (scan j) = k.dumps (scan_json j)

unfoldable pub ledger_ref : DispatchJob → Text
ledger_ref (action j) = j.plan_id
ledger_ref (scan j) = codes "scan:" ++ (j.host_id ++ (codes ":" ++ j.root))

abbrev pub nonce_of : DispatchJob → Text
nonce_of (action j) = j.nonce
nonce_of (scan j) = j.nonce

abbrev pub host_of : DispatchJob → Text
host_of (action j) = j.host_id
host_of (scan j) = j.host_id

abbrev pub issued_of : DispatchJob → ℕ
issued_of (action j) = j.issued_at
issued_of (scan j) = j.issued_at

abbrev pub expires_of : DispatchJob → ℕ
expires_of (action j) = j.expires_at
expires_of (scan j) = j.expires_at

pub data Algorithm : Type 0 where
  ed25519 hmac_sha256 : Algorithm

pub record SignedJob : Type 0 where
  pub job : DispatchJob
  pub key_id : Text
  pub algorithm : Algorithm
  pub signature : Text
