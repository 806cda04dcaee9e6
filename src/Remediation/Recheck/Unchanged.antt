-- ===== src/Remediation/Recheck/Unchanged.antt =====
-- What `_recheck` of agent/actor/executor.py lets through.
use fathomline.Prelude.{ℕ, false, Option, none, some, ◌≡◌, ◌↔◌, inl, inr, arith, ℕ_eq, Option-cases}
use fathomline.Prelude.Json.{Text, Text_eq}
use fathomline.Audit.{Codec}
use fathomline.Remediation.Plan.{PlanAction, hard_delete, PlanItem}
use fathomline.Remediation.Os.{Os, Stat}
use fathomline.Remediation.Recheck.{recheck, content_drift, full_hash_through_fd, is_hard_delete}

module _ (os : Os) (k : Codec) (fs : os.Fs) (dir : ℕ) (name : Text) where
  -- The content that is there now has the digest that the plan was approved for.
  abbrev pub HasDigest : Text → Type 0
  HasDigest h = (c : Text) × (os.read_at fs dir name ≡ some c) × (k.blake3 c ≡ h)

  abbrev pub Anchored : PlanAction → Option Text → Type 0
  Anchored action (some h) = HasDigest h
  Anchored action none = is_hard_delete action ≡ false

  -- The file is there, is no symlink, and has the inode, the size and the digest of the plan. Only
  -- an item with no digest at all is let through without one, and never for a hard delete.
  pub record Unchanged (item : PlanItem) : Type 0 where
    pub stat : Stat
    pub found : os.lstat_at fs dir name ≡ some stat
    pub no_link : stat.is_link ≡ false
    pub same_inode : stat.ino ≡ item.prior_inode
    pub same_size : stat.size ≡ item.prior_size
    pub same_content : Anchored item.action item.prior_hash

  content_of_none :
      (h : Text) → content_drift os k fs dir name hard_delete (some h) ≡ none → HasDigest h
  unfolding content_drift full_hash_through_fd
  content_of_none h e = elim (Option-cases (os.read_at fs dir name)) [
    | inl gone ↦ absurd (ground arith)
    | inr (c, there) ↦ (c, there, ground (arith, Text_eq.beq_iff (k.blake3 c) h))
  ]

  content_drift-none :
      (action : PlanAction) (prior : Option Text)
      → (content_drift os k fs dir name action prior ≡ none) ↔ Anchored action prior
  unfolding content_drift full_hash_through_fd
  content_drift-none action none = (λ e. ground arith, λ e. ground arith)
  content_drift-none action (some h) =
      (content_of_none h, λ (c, there, same). ground (arith, Text_eq.beq_iff (k.blake3 c) h))

  passed : (item : PlanItem) → recheck os k fs dir name item ≡ none → Unchanged item
  unfolding recheck
  passed item e = elim (Option-cases (os.lstat_at fs dir name)) [
    | inl gone ↦ absurd (ground arith)
    | inr (st, there) ↦ record {
      stat = st;
      found = there;
      no_link = ground arith;
      same_inode = ground arith;
      same_size = ground arith;
      same_content = (content_drift-none item.action item.prior_hash).0 (ground arith);
    }
  ]

  -- `_recheck` passes a file exactly when it is unchanged since the plan: it is there, is no
  -- symlink, has the planned inode and size and, if the plan carries a digest, content with that
  -- digest; without a digest it passes for every action but a hard delete, and so for a move.
  pub recheck-Unchanged :
      (item : PlanItem) → (recheck os k fs dir name item ≡ none) ↔ Unchanged item
  unfolding recheck
  recheck-Unchanged item = (
    passed item,
    λ u. ground (arith, (content_drift-none item.action item.prior_hash).1 u.same_content),
  )
