-- ===== src/Audit/Store/Anchoring.antt =====
-- What a checkpoint of core/audit_store.py protects, and when it is refused.
use fathomline.Prelude.{
  ℕ, zero, suc, ◌-◌, ◌<◌, true, false, some, List, [], ◌∷◌, ◌++◌, map, ◌≡◌, refl, arith, ap, sym,
  ◌∙◌, subst, length, take, get_elem?, ltb, Option-cases, length-append, inl, inr,
}
use fathomline.Prelude.Json.{Text, Text_eq}
use fathomline.Audit.{AuditRecord, Codec, genesis_hash, verify_chain}
use fathomline.Audit.Building.{head_from}
use fathomline.Audit.Tamper.{IsSound, verified_logs_equal}
use fathomline.Audit.Store.{
  Row, Table, last_row, persisted_records, Seal, Checkpoint, checkpoint_message, anchor,
  write_checkpoint, verify_checkpoint, verify_latest_checkpoint,
}
use fathomline.Audit.Store.Appending.{IsLinked}

-- A signature that was just made is accepted.
abbrev pub IsHonest : Seal → Type 0
IsHonest seal = (m : Text) → seal.verify m (seal.fromhex (seal.hex (seal.sign m))) ≡ true

-- The table is not empty, `r` is its last row, and no number was skipped.
pub record EndsAt (t : Table) (r : Row) : Type 0 where
  pub last : last_row t.rows ≡ some r
  pub no_gap : r.seq ≡ length t.rows

last-get :
    (rows : List Row) (r : Row) (more : List AuditRecord)
    → last_row rows ≡ some r
    → get_elem? (map (λ (x : Row). x.entry) rows ++ more) (length rows - 1) ≡ some r.entry
last-get [] r more e = ground (arith, e)
last-get (x ∷ []) r more e = ground (arith, e)
last-get (x ∷ y ∷ rows) r more e =
    let next : suc (length (y ∷ rows) - 1) ≡ length (x ∷ y ∷ rows) - 1 = omega arith in
    subst (λ n. get_elem? (map (λ (z : Row). z.entry) (x ∷ y ∷ rows) ++ more) n ≡ some r.entry) next
      (last-get (y ∷ rows) r more e)

last-head_from :
    (p : Text) (rows : List Row) (r : Row)
    → last_row rows ≡ some r
    → head_from p (map (λ (x : Row). x.entry) rows) ≡ r.entry.row_hash
unfolding head_from
last-head_from p [] r e = ground (arith, e)
last-head_from p (x ∷ []) r e = ground (arith, e)
last-head_from p (x ∷ y ∷ rows) r e = last-head_from x.entry.row_hash (y ∷ rows) r e

take-map-append :
    (rows : List Row) (more : List AuditRecord)
    → take (length rows) (map (λ (x : Row). x.entry) rows ++ more) ≡ map (λ (x : Row). x.entry) rows
take-map-append [] more = refl
take-map-append (x ∷ rows) more = ap (◌∷◌ x.entry) (take-map-append rows more)

length-records : (rows : List Row) → length (map (λ (x : Row). x.entry) rows) ≡ length rows
length-records [] = refl
length-records (x ∷ rows) = ap suc (length-records rows)

last-length :
    (rows : List Row) (r : Row) → last_row rows ≡ some r → suc (length rows - 1) ≡ length rows
last-length [] r e = absurd (ground (arith, e))
last-length (x ∷ rows) r e = omega arith

take-head_from :
    (p : Text) (xs : List AuditRecord) (n : ℕ) (x : AuditRecord)
    → get_elem? xs n ≡ some x
    → head_from p (take (suc n) xs) ≡ x.row_hash
unfolding head_from
take-head_from p [] n x e = ground (arith, e)
take-head_from p (y ∷ xs) zero x e = ground (arith, e)
take-head_from p (y ∷ xs) (suc n) x e = take-head_from y.row_hash xs n x e

module _ (seal : Seal) (k : Codec) where
  -- What a checkpoint that is accepted has passed.
  pub record Passed (cp : Checkpoint) (records : List AuditRecord) : Type 0 where
    pub at : AuditRecord
    pub found : get_elem? records (cp.seq - 1) ≡ some at
    pub same_hash : at.row_hash ≡ cp.row_hash
    pub chained : verify_chain k (take cp.seq records) genesis_hash ≡ true

  verified-Passed :
      (cp : Checkpoint) (records : List AuditRecord)
      → verify_checkpoint seal k cp records ≡ true
      → Passed cp records
  verified-Passed cp records v = elim (Option-cases (get_elem? records (cp.seq - 1))) [
    | inl e ↦ absurd (ground (arith, e, v))
    | inr (at, e) ↦ record {
      at = at;
      found = e;
      same_hash = ground (arith, e, v, Text_eq.beq_iff at.row_hash cp.row_hash);
      chained = ground (arith, e, v);
    }
  ]

  accepted :
      (cp : Checkpoint) (records : List AuditRecord)
      → seal.verify (checkpoint_message cp.seq cp.row_hash) (seal.fromhex cp.signature) ≡ true
      → ltb (length records) cp.seq ≡ false
      → Passed cp records
      → verify_checkpoint seal k cp records ≡ true
  accepted cp records signed long p = ground (
    arith,
    signed,
    long,
    p.found,
    p.same_hash,
    Text_eq.beq_iff p.at.row_hash cp.row_hash,
    p.chained,
  )

  -- A checkpoint that is written on a table that ends at `r`.
  written :
      (t : Table) (r : Row) (checkpoints : List Checkpoint)
      → last_row t.rows ≡ some r
      → write_checkpoint seal t checkpoints ≡ anchor seal r ∷ checkpoints
  unfolding write_checkpoint
  written t r checkpoints e = rw e refl

  -- With a signer whose signatures verify, a checkpoint of a linked table in which no number was
  -- skipped verifies then, and it still verifies after any further rows that keep the log linked.
  pub verify_latest_checkpoint-write_checkpoint :
      (t : Table) (r : Row) (u : Table) (more : List AuditRecord) (checkpoints : List Checkpoint)
      → IsHonest seal
      → EndsAt t r
      → IsLinked k t
      → persisted_records u ≡ persisted_records t ++ more
      → verify_latest_checkpoint seal k u (write_checkpoint seal t checkpoints) ≡ true
  unfolding verify_latest_checkpoint
  verify_latest_checkpoint-write_checkpoint t r u more checkpoints honest ends l e =
      let long : ltb (length (persisted_records t ++ more)) r.seq ≡ false =
        ground
          (arith, ends.no_gap, length-append (persisted_records t) more, length-records t.rows) in
      rw (written t r checkpoints ends.last, e)
        (accepted (anchor seal r) (persisted_records t ++ more) (honest _) long (record {
          at = r.entry;
          found = rw ends.no_gap (last-get t.rows r more ends.last);
          same_hash = refl;
          chained = rw (ends.no_gap, take-map-append t.rows more) l;
        }))

  -- If JSON texts name their values and digests do not collide, a later table that verifies against
  -- the checkpoint of a linked table in which no number was skipped starts with the very records of
  -- that table: none of them was changed, dropped, added or moved.
  pub checkpoint_pins_prefix :
      (t : Table) (r : Row) (u : Table) (checkpoints : List Checkpoint)
      → IsSound k
      → EndsAt t r
      → IsLinked k t
      → verify_latest_checkpoint seal k u (write_checkpoint seal t checkpoints) ≡ true
      → take (length t.rows) (persisted_records u) ≡ persisted_records t
  unfolding verify_latest_checkpoint
  checkpoint_pins_prefix t r u checkpoints sound ends l v =
      let v' : verify_latest_checkpoint seal k u (anchor seal r ∷ checkpoints) ≡ true =
        subst (λ cs. verify_latest_checkpoint seal k u cs ≡ true)
          (written t r checkpoints ends.last) v in
      let p = verified-Passed (anchor seal r) (persisted_records u) v' in
      let found : get_elem? (persisted_records u) (length t.rows - 1) ≡ some p.at =
        subst (λ n. get_elem? (persisted_records u) (n - 1) ≡ some p.at) ends.no_gap p.found in
      let chained : verify_chain k (take (length t.rows) (persisted_records u)) genesis_hash
          ≡ true =
        subst (λ n. verify_chain k (take n (persisted_records u)) genesis_hash ≡ true) ends.no_gap
          p.chained in
      verified_logs_equal k sound _ _ chained l (
        subst (λ n. head_from genesis_hash (take n (persisted_records u)) ≡ p.at.row_hash)
          (last-length t.rows r ends.last)
          (take-head_from genesis_hash (persisted_records u) (length t.rows - 1) p.at found)
        ∙ p.same_hash
        ∙ sym (last-head_from genesis_hash t.rows r ends.last))

  -- Where a number was skipped before the last row of the table, a checkpoint that is written there
  -- is refused at once, though nothing was changed.
  pub skipped_number_refuses :
      (t : Table) (r : Row) (checkpoints : List Checkpoint)
      → last_row t.rows ≡ some r
      → length t.rows < r.seq
      → verify_latest_checkpoint seal k t (write_checkpoint seal t checkpoints) ≡ false
  unfolding verify_latest_checkpoint
  skipped_number_refuses t r checkpoints e gap =
      let short : ltb (length (persisted_records t)) r.seq ≡ true =
        ground (arith, gap, length-records t.rows) in
      rw (written t r checkpoints e) (ground (arith, short))
