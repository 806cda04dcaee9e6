-- ===== src/Remediation/Nonce.antt =====
-- core/remediation/nonce_store.py: the single-use ledger. Each store is the list of the nonces that
-- it holds; a call of `consume` is atomic (a lock, or an INSERT that the unique column arbitrates).
use fathomline.Prelude.{Bool, true, false, List, ◌∷◌, if◌then◌else◌, member}
use fathomline.Prelude.Json.{Text, Text_eq}

abbrev pub Ledger : Type 0
Ledger = List Text

-- `InMemoryNonceStore.consume`
unfoldable pub consume : Text → Ledger → Bool × Ledger
consume nonce seen = if member nonce seen then (false, seen) else (true, nonce ∷ seen)

-- What SQLite and PostgreSQL make of an INSERT into the table, whose `nonce` column is unique.
pub data Insert : Type 0 where
  inserted integrity_error locked : Insert

insert_nonce : Text → Ledger → Insert × Ledger
insert_nonce nonce rows =
    if member nonce rows then (integrity_error, rows) else (inserted, nonce ∷ rows)

pub data Consumed : Type 0 where
  fresh seen_before ledger_locked : Consumed

abbrev answered : Insert × Ledger → Consumed × Ledger
answered (inserted, rows) = (fresh, rows)
answered (integrity_error, rows) = (seen_before, rows)
answered (locked, rows) = (ledger_locked, rows)

-- `SqliteNonceStore._consume_sync`: a lock that does not clear is an error of its own, and never
-- an answer.
unfoldable pub consume_sqlite : Bool → Text → Ledger → Consumed × Ledger
unfolding insert_nonce
consume_sqlite lock nonce rows =
    if lock then (ledger_locked, rows) else answered (insert_nonce nonce rows)

abbrev in_savepoint : Ledger → Insert × Ledger → Bool × Ledger
in_savepoint rows (inserted, rows') = (true, rows')
in_savepoint rows (_, rows') = (false, rows)

-- `DbNonceStore.consume`: the savepoint is rolled back on a violation.
unfoldable pub consume_db : Text → Ledger → Bool × Ledger
unfolding insert_nonce
consume_db nonce rows = in_savepoint rows (insert_nonce nonce rows)
