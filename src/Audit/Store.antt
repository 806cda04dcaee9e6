-- ===== src/Audit/Store.antt =====
-- core/audit_store.py: the audit log in the database. A table is the list of its rows in the order
-- of `seq`; other writers may commit rows between the reading of the head and the insertion.
pub mod Appending
pub mod Durable
pub mod Anchoring
mod Tests
use fathomline.Prelude.{
  ℕ, zero, suc, ◌+◌, ◌-◌, Bool, true, false, not, ◌&&◌, Option, none, some, List, [], ◌∷◌, ◌++◌,
  map, any, keep, length, take, get_elem?, if◌then◌else◌, ◌==◌, ℕ_eq, ltb,
}
use mathlib.Core.List.{reverse}
use fathomline.Prelude.Json.{Text, Text_eq, Json, codes}
use fathomline.Prelude.Effect.{Outcome, ok, raised, Effect, pure, ◌>>=◌}
use fathomline.Audit.{AuditRecord, Codec, genesis_hash, new_record, rechain, verify_chain}
use fathomline.Prelude.Decimal.{decimal, decimal_text}

pub record Row : Type 0 where
  pub seq : ℕ
  pub entry : AuditRecord

-- The rows, and the number that the next insertion is given.
pub record Table : Type 0 where
  pub rows : List Row
  pub next : ℕ

pub data StoreError : Type 0 where
  head_not_won : StoreError

abbrev last_hash : Text → List Row → Text
last_hash h [] = h
last_hash h (r ∷ rows) = last_hash r.entry.row_hash rows

unfoldable pub load_head : Table → Text
load_head t = last_hash genesis_hash t.rows

abbrev pub persisted_records : Table → List AuditRecord
persisted_records t = map (λ (r : Row). r.entry) t.rows

-- The UNIQUE constraint on `prev_hash`.
abbrev pub taken : Text → Table → Bool
taken head t = any (λ (r : Row). r.entry.prev_hash == head) t.rows

abbrev pub inserted : AuditRecord → Table → Table
inserted r t = record {
  rows = t.rows ++ record { seq = t.next; entry = r } ∷ [];
  next = t.next + 1;
}

-- What the database and the other writers do: whether a number that a refused insertion was given
-- is lost, as those of a sequence of PostgreSQL are, and what is committed during an attempt.
pub record Database : Type 0 where
  pub loses_numbers : Bool
  pub rivals : ℕ → Table → Table

abbrev pub max_append_retries : ℕ
max_append_retries = 8

module _ (db : Database) where
  abbrev refused : Table → Table
  refused t = record t { next = if db.loses_numbers then t.next + 1 else t.next }

  -- The loop that `append_durable` and `_splice_record_durable` share: attempts left, and the
  -- number of the attempt.
  unfoldable pub win_head : (ℕ → Text → AuditRecord) → ℕ → ℕ → Effect Table StoreError AuditRecord
  win_head make zero i t = (raised head_not_won, t)
  win_head make (suc left) i t =
      let head = load_head t in
      let t' = db.rivals i t in
      let again = win_head make left (i + 1) (refused t') in
      if taken head t' then again else (ok (make i head), inserted (make i head) t')

  module _ (k : Codec) where
    unfoldable pub append_durable :
        (ℕ → Text) → Text → Text → Text → Json → Text → ℕ → Effect Table StoreError AuditRecord
    unfolding win_head
    append_durable now actor action target before_state result i =
        win_head (λ j head. new_record k head (now j) actor action target before_state result)
          max_append_retries i

    unfoldable pub splice_record_durable : AuditRecord → ℕ → Effect Table StoreError AuditRecord
    unfolding win_head
    splice_record_durable r i = win_head (λ j head. rechain k r head) max_append_retries i

    -- The attempts of all records are numbered on.
    unfoldable pub append_records_durable :
        List AuditRecord → ℕ → Effect Table StoreError (List AuditRecord)
    unfolding splice_record_durable
    append_records_durable [] i = pure []
    append_records_durable (r ∷ rest) i = do
      spliced ← splice_record_durable r i
      others ← append_records_durable rest (i + max_append_retries)
      pure (spliced ∷ others)

-- `f"{seq}:{row_hash}".encode()`
unfoldable pub checkpoint_message : ℕ → Text → Text
unfolding decimal
checkpoint_message seq row_hash = decimal_text seq ++ (b':' ∷ row_hash)

-- `bytes.hex` and `bytes.fromhex` are the two sides of a parameter.
pub record Seal : Type 0 where
  pub key_id : Text
  pub sign : Text → Text
  pub verify : Text → Text → Bool
  pub hex : Text → Text
  pub fromhex : Text → Text

pub record Checkpoint : Type 0 where
  pub seq : ℕ
  pub row_hash : Text
  pub signature : Text
  pub key_id : Text

abbrev pub last_row : List Row → Option Row
last_row [] = none
last_row (r ∷ []) = some r
last_row (r ∷ s ∷ rows) = last_row (s ∷ rows)

module _ (seal : Seal) where
  abbrev pub anchor : Row → Checkpoint
  anchor r = record {
    seq = r.seq;
    row_hash = r.entry.row_hash;
    signature = seal.hex (seal.sign (checkpoint_message r.seq r.entry.row_hash));
    key_id = seal.key_id;
  }

  abbrev on_last : Option Row → List Checkpoint → List Checkpoint
  on_last none checkpoints = checkpoints
  on_last (some r) checkpoints = anchor r ∷ checkpoints

  -- The checkpoints are held with the newest first.
  unfoldable pub write_checkpoint : Table → List Checkpoint → List Checkpoint
  write_checkpoint t checkpoints = on_last (last_row t.rows) checkpoints

  module _ (k : Codec) where
    abbrev extends : Checkpoint → List AuditRecord → Option AuditRecord → Bool
    extends cp records none = false
    extends cp records (some anchored) =
        if not (anchored.row_hash == cp.row_hash)
        then false
        else verify_chain k (take cp.seq records) genesis_hash

    -- An index of -1 reads the last record, but `seq` is at least 1.
    abbrev pub verify_checkpoint : Checkpoint → List AuditRecord → Bool
    verify_checkpoint cp records =
        if not (seal.verify (checkpoint_message cp.seq cp.row_hash) (seal.fromhex cp.signature))
        then false
        else if ltb (length records) cp.seq
        then false
        else extends cp records (get_elem? records (cp.seq - 1))

    unfoldable pub verify_latest_checkpoint : Table → List Checkpoint → Bool
    verify_latest_checkpoint t [] = true
    verify_latest_checkpoint t (cp ∷ older) = verify_checkpoint cp (persisted_records t)

-- `persisted_records_page`: the rows newest first, and the cursor of the next page.
abbrev older_than : Option ℕ → Row → Bool
older_than none r = true
older_than (some cursor) r = ltb r.seq cursor

abbrev seq_of : Option Row → Option ℕ
seq_of none = none
seq_of (some r) = some r.seq

unfoldable pub persisted_records_page : Option ℕ → ℕ → Table → List Row × Option ℕ
persisted_records_page cursor limit t =
    let rows = take (limit + 1) (keep (λ r. older_than cursor r) (reverse t.rows)) in
    let page = take limit rows in
    (page, if ltb limit (length rows) then seq_of (last_row page) else none)
