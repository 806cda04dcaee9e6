-- ===== src/Audit/Store/Tests.antt =====
-- Runs and instances for the modules of Audit.Store.
use mathlib.Core.List.{append-nil}
use fathomline.Prelude.{
  ℕ, true, false, List, [], ◌∷◌, ◌≡◌, refl, arith, sym, take, if◌then◌else◌, Bool-cases, inl, inr,
  nat_eq, list_beq, ◌==◌, ==_refl,
}
use fathomline.Prelude.Json.{Text, Text_eq, codes, null}
use fathomline.Prelude.Effect.{Outcome}
use fathomline.Audit.{AuditRecord, genesis_hash, new_record, compute_row_hash, verify_chain}
use fathomline.Audit.Building.{content}
use fathomline.Audit.Sample.{sample_codec, sample-IsSound}
use fathomline.Audit.Store.{
  StoreError, Row, Table, Database, Seal, load_head, inserted, persisted_records, append_durable,
  append_records_durable, write_checkpoint, verify_latest_checkpoint,
}
use fathomline.Audit.Store.Appending.{IsLinked, Extends, Added, inserted-IsLinked}
use fathomline.Audit.Store.Durable.{
  new_record-IsFor, append_durable-Added, AllAdded, append_records_durable-AllAdded,
}
use fathomline.Audit.Store.Anchoring.{
  EndsAt, verify_latest_checkpoint-write_checkpoint, checkpoint_pins_prefix, skipped_number_refuses,
}

abbrev empty_table : Table
empty_table = record { rows = []; next = 1 }

-- What another writer commits.
abbrev rival_record : Text → AuditRecord
rival_record head =
    new_record sample_codec head (codes "t9") (codes "bob") (codes "scan") (codes "/b") null
      (codes "ok")

-- Another writer that commits a row during the first attempt only.
abbrev busy : ℕ → Table → Table
busy i t = if nat_eq i 0 then inserted (rival_record (load_head t)) t else t

abbrev postgres : Database
postgres = record { loses_numbers = true; rivals = busy }

abbrev sqlite : Database
sqlite = record { loses_numbers = false; rivals = busy }

busy-Extends : (i : ℕ) (t : Table) → IsLinked sample_codec t → Extends sample_codec t (busy i t)
busy-Extends i t l = elim (Bool-cases (nat_eq i 0)) [
  | inl e ↦ rw e (record {
    more = record { seq = t.next; entry = rival_record (load_head t) } ∷ [];
    longer = refl;
    linked =
        inserted-IsLinked sample_codec t (rival_record (load_head t)) l
          (new_record-IsFor sample_codec (load_head t) _ _ _ _ _ _);
  })
  | inr e ↦ rw e (record { more = []; longer = sym (append-nil _); linked = l })
]

abbrev now : ℕ → Text
now i = codes "t1"

abbrev log_scan : Database → Outcome StoreError AuditRecord × Table
log_scan db =
    append_durable db sample_codec now (codes "ada") (codes "scan") (codes "/a") null (codes "ok") 0
      empty_table

abbrev appended : Database → Table
appended db = (log_scan db).1

-- The refused attempt lost a number.
numbers_of_rows : List Row → List ℕ
numbers_of_rows [] = []
numbers_of_rows (r ∷ rows) = r.seq ∷ numbers_of_rows rows

postgres_skips : numbers_of_rows (appended postgres).rows ≡ 1 ∷ 3 ∷ []
unfolding append_durable load_head numbers_of_rows list_beq new_record genesis_hash compute_row_hash
postgres_skips = refl

sqlite_counts : numbers_of_rows (appended sqlite).rows ≡ 1 ∷ 2 ∷ []
unfolding append_durable load_head numbers_of_rows list_beq new_record genesis_hash compute_row_hash
sqlite_counts = refl

empty-IsLinked : IsLinked sample_codec empty_table
unfolding verify_chain
empty-IsLinked = refl

append_durable-Added_example :
    Added sample_codec
      (λ a.
        (j : ℕ) × (content a ≡ (now j, codes "ada", codes "scan", codes "/a", null, codes "ok")))
      empty_table
      (log_scan postgres).0
      (log_scan postgres).1
append_durable-Added_example =
    append_durable-Added sample_codec postgres busy-Extends now (codes "ada") (codes "scan")
      (codes "/a") null (codes "ok") 0 empty_table empty-IsLinked

sqlite_linked : IsLinked sample_codec (appended sqlite)
sqlite_linked =
    (append_durable-Added sample_codec sqlite busy-Extends now (codes "ada") (codes "scan")
      (codes "/a") null (codes "ok") 0 empty_table empty-IsLinked).linked

-- Two records of an actor.
abbrev act_records : List AuditRecord
act_records = rival_record (codes "x") ∷ rival_record (codes "y") ∷ []

abbrev spliced : Outcome StoreError (List AuditRecord) × Table
spliced = append_records_durable sqlite sample_codec act_records 0 (appended sqlite)

splicing : AllAdded sample_codec act_records (appended sqlite) spliced.0 spliced.1
splicing =
    append_records_durable-AllAdded sample_codec sqlite busy-Extends act_records 0 (appended sqlite)
      sqlite_linked

append_records_durable-AllAdded_example :
    AllAdded sample_codec act_records (appended sqlite) spliced.0 spliced.1
append_records_durable-AllAdded_example =
    append_records_durable-AllAdded sample_codec sqlite busy-Extends act_records 0 (appended sqlite)
      sqlite_linked

abbrev sample_seal : Seal
sample_seal = record {
  key_id = codes "k1";
  sign = λ m. m;
  verify = λ m s. m == s;
  hex = λ m. m;
  fromhex = λ m. m;
}

-- The row that `appended` ends with, with its number.
abbrev own_row : ℕ → Row
own_row n = record {
  seq = n;
  entry =
      new_record sample_codec (load_head (busy 0 empty_table)) (codes "t1") (codes "ada")
        (codes "scan") (codes "/a") null (codes "ok");
}

sqlite-EndsAt : EndsAt (appended sqlite) (own_row 2)
unfolding append_durable load_head list_beq new_record genesis_hash compute_row_hash
sqlite-EndsAt = record { last = refl; no_gap = refl }

-- The actor's records are spliced in after the checkpoint.
verify_latest_checkpoint-write_checkpoint_example :
    verify_latest_checkpoint sample_seal sample_codec spliced.1
      (write_checkpoint sample_seal (appended sqlite) [])
    ≡ true
verify_latest_checkpoint-write_checkpoint_example =
    verify_latest_checkpoint-write_checkpoint sample_seal sample_codec (appended sqlite) (own_row 2)
      spliced.1 splicing.more [] (λ m. ==_refl m) sqlite-EndsAt sqlite_linked splicing.longer

-- The table that was given the checkpoint, and the one with the actor's records behind it.
checkpoint_pins_prefix_example :
    take 2 (persisted_records spliced.1) ≡ persisted_records (appended sqlite)
unfolding append_durable load_head list_beq new_record genesis_hash compute_row_hash
    append_records_durable
checkpoint_pins_prefix_example =
    checkpoint_pins_prefix sample_seal sample_codec (appended sqlite) (own_row 2) spliced.1 []
      sample-IsSound sqlite-EndsAt sqlite_linked
      (verify_latest_checkpoint-write_checkpoint sample_seal sample_codec (appended sqlite)
        (own_row 2) spliced.1 splicing.more [] (λ m. ==_refl m) sqlite-EndsAt sqlite_linked
        splicing.longer)

-- What `append_durable` itself leaves on PostgreSQL after one refused attempt.
skipped_number_refuses_example :
    verify_latest_checkpoint sample_seal sample_codec
      (appended postgres)
      (write_checkpoint sample_seal (appended postgres) [])
    ≡ false
unfolding append_durable load_head list_beq new_record genesis_hash compute_row_hash
skipped_number_refuses_example =
    skipped_number_refuses sample_seal sample_codec (appended postgres) (own_row 3) [] refl
      (omega arith)
