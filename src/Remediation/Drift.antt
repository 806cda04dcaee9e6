-- ===== src/Remediation/Drift.antt =====
-- Why an item is not acted on (agent/actor/planner.py, agent/actor/executor.py).
use fathomline.Prelude.Json.{Text, codes}

pub data Drift : Type 0 where
  missing became_symlink inode_changed size_changed hash_unreadable hash_changed : Drift
  no_hash_anchor : Drift

abbrev pub drift_text : Drift → Text
drift_text missing = codes "missing"
drift_text became_symlink = codes "became_symlink"
drift_text inode_changed = codes "inode_changed"
drift_text size_changed = codes "size_changed"
drift_text hash_unreadable = codes "hash_unreadable"
drift_text hash_changed = codes "hash_changed"
drift_text no_hash_anchor = codes "no_hash_anchor"
