-- ===== src/Audit/Store/Appending.antt =====
-- What the loops of core/audit_store.py leave in the table while other writers append to it too.
use mathlib.Core.List.{map-append, append-nil, append_assoc}
use fathomline.Prelude.{
  ℕ, zero, suc, ◌+◌, Bool, true, false, List, [], ◌∷◌, ◌++◌, map, any, any-append, ◌≡◌, refl, arith,
  ap, sym, ◌∙◌, Bool-cases, inl, inr, ◌==◌, subst,
}
use fathomline.Prelude.Json.{Text, Text_eq}
use fathomline.Prelude.Effect.{Outcome, ok, raised}
use fathomline.Audit.{
  AuditRecord, Codec, genesis_hash, verify_from, verify_chain, record_payload, compute_row_hash,
}
use fathomline.Audit.Building.{head_from, verify_from-append}
use fathomline.Audit.Store.{
  Row, Table, StoreError, load_head, last_hash, persisted_records, taken, inserted, Database,
  refused, win_head,
}

last_hash-eq-head_from :
    (h : Text) (rows : List Row) → last_hash h rows ≡ head_from h (map (λ (r : Row). r.entry) rows)
unfolding head_from
last_hash-eq-head_from h [] = refl
last_hash-eq-head_from h (r ∷ rows) = last_hash-eq-head_from r.entry.row_hash rows

load_head-same : (t t' : Table) → t'.rows ≡ t.rows → load_head t' ≡ load_head t
unfolding load_head
load_head-same t t' e = ap (last_hash genesis_hash) e

module _ (k : Codec) where
  abbrev pub IsLinked : Table → Type 0
  IsLinked t = verify_chain k (persisted_records t) genesis_hash ≡ true

  -- Rows were added behind those that were there, and the chain is still linked.
  pub record Extends (t t' : Table) : Type 0 where
    pub more : List Row
    pub longer : t'.rows ≡ t.rows ++ more
    pub linked : IsLinked t'

  -- A record that is built for a head.
  pub record IsFor (head : Text) (r : AuditRecord) : Type 0 where
    pub links : r.prev_hash ≡ head
    pub hashes : compute_row_hash k head (record_payload k r) ≡ r.row_hash

  split_chain :
      (t t' : Table) (more : List Row)
      → t'.rows ≡ t.rows ++ more
      → IsLinked t'
      → verify_from k (load_head t) (map (λ (r : Row). r.entry) more) ≡ true
  unfolding verify_chain load_head
  split_chain t t' more e l =
      let whole : verify_from k genesis_hash
            (persisted_records t ++ map (λ (r : Row). r.entry) more)
          ≡ true =
        subst (λ rs. verify_from k genesis_hash rs ≡ true)
          (ap (map (λ (r : Row). r.entry)) e ∙ map-append _ _ _) l in
      rw (last_hash-eq-head_from genesis_hash t.rows) (
        ground (
          arith,
          whole,
          verify_from-append k genesis_hash (persisted_records t) (map (λ (r : Row). r.entry) more),
        ))

  -- A free head says that nothing was committed since it was read.
  none_since :
      (t t' : Table) (more : List Row)
      → t'.rows ≡ t.rows ++ more
      → IsLinked t'
      → taken (load_head t) t' ≡ false
      → more ≡ []
  none_since t t' [] e l free = refl
  none_since t t' (m ∷ more) e l free =
      absurd (ground (arith, split, here, free, any-append is_head t.rows (m ∷ more)))
    where
      is_head : Row → Bool
      is_head r = r.entry.prev_hash == load_head t

      split : (m.entry.prev_hash == load_head t) ≡ true
      split = unfold verify_from in ground (arith, split_chain t t' (m ∷ more) e l)

      here :
          taken (load_head t) t'
          ≡ any (λ (r : Row). r.entry.prev_hash == load_head t) (t.rows ++ m ∷ more)
      here = ap (any (λ (r : Row). r.entry.prev_hash == load_head t)) e

  pub inserted-IsLinked :
      (t : Table) (r : AuditRecord) → IsLinked t → IsFor (load_head t) r → IsLinked (inserted r t)
  unfolding verify_chain verify_from load_head
  inserted-IsLinked t r l f =
      let h = last_hash-eq-head_from genesis_hash t.rows in
      let ends : verify_from k (head_from genesis_hash (persisted_records t)) (r ∷ []) ≡ true =
        subst (λ p. verify_from k p (r ∷ []) ≡ true) h
          (ground (
            arith,
            Text_eq.beq_iff r.prev_hash (last_hash genesis_hash t.rows),
            Text_eq.beq_iff (compute_row_hash k r.prev_hash (record_payload k r)) r.row_hash,
            Text_eq.beq_iff
                (compute_row_hash k (last_hash genesis_hash t.rows) (record_payload k r))
                r.row_hash,
            f.links,
            f.hashes,
          )) in
      subst (λ rs. verify_from k genesis_hash rs ≡ true)
        (sym (map-append (λ (r : Row). r.entry) t.rows (record { seq = t.next; entry = r } ∷ [])))
        (ground (arith, ends, l, verify_from-append k genesis_hash (persisted_records t) (r ∷ [])))

  abbrev pub own : Outcome StoreError AuditRecord → List AuditRecord
  own (ok r) = r ∷ []
  own (raised e) = []

  -- What was added: the rows of the other writers, and then, if it returned, the caller's own, whose
  -- content is what was asked for.
  pub record Added (wanted : AuditRecord → Type 0) (t : Table) (r : Outcome StoreError AuditRecord)
      (t' : Table) : Type 0 where
    pub others : List AuditRecord
    pub longer : persisted_records t' ≡ persisted_records t ++ (others ++ own r)
    pub linked : IsLinked t'
    pub as_wanted : (a : AuditRecord) → r ≡ ok a → wanted a

  module _ (db : Database) (fair : (i : ℕ) (t : Table) → IsLinked t → Extends t (db.rivals i t))
      (wanted : AuditRecord → Type 0) (make : ℕ → Text → AuditRecord)
      (made : (i : ℕ) (head : Text) → IsFor head (make i head) × wanted (make i head)) where
    pub win_head-Added :
        (left i : ℕ) (t : Table)
        → IsLinked t
        → let r = win_head db make left i t in Added wanted t r.0 r.1
    unfolding win_head
    win_head-Added zero i t l = record {
      others = [];
      longer = sym (append-nil _);
      linked = l;
      as_wanted = λ a e. cc;
    }
    win_head-Added (suc left) i t l =
        let t' = db.rivals i t in
        let x = fair i t l in
        let grown : persisted_records t'
            ≡ persisted_records t ++ map (λ (r : Row). r.entry) x.more =
          ap (map (λ (r : Row). r.entry)) x.longer ∙ map-append _ _ _ in
        elim (Bool-cases (taken (load_head t) t')) [
          | inl lost ↦
              let later = win_head-Added left (i + 1) (refused db t') x.linked in
              rw lost (record {
                others = map (λ (r : Row). r.entry) x.more ++ later.others;
                longer =
                    later.longer
                    ∙ ap
                        (λ rs.
                          rs
                          ++ (later.others
                              ++ own (win_head db make left (i + 1) (refused db t')).0))
                        grown
                    ∙ append_assoc (persisted_records t) (map (λ (r : Row). r.entry) x.more) _
                    ∙ ap (λ rs. persisted_records t ++ rs)
                        (sym (append_assoc (map (λ (r : Row). r.entry) x.more) later.others _));
                linked = later.linked;
                as_wanted = later.as_wanted;
              })
          | inr won ↦
              let idle = none_since t t' x.more x.longer x.linked won in
              let same : t'.rows ≡ t.rows =
                x.longer ∙ ap (λ rs. t.rows ++ rs) idle ∙ append-nil _ in
              let fits : IsFor (load_head t') (make i (load_head t)) =
                subst (λ h. IsFor h (make i (load_head t))) (sym (load_head-same t t' same))
                  (made i (load_head t)).0 in
              rw won (record {
                others = [];
                longer =
                    map-append _ _ _
                    ∙ ap (λ rs. map (λ (r : Row). r.entry) rs ++ make i (load_head t) ∷ []) same;
                linked = inserted-IsLinked t' (make i (load_head t)) x.linked fits;
                as_wanted = λ a e.
                    let same_a : make i (load_head t) ≡ a = ground (arith, e) in
                    subst wanted same_a (made i (load_head t)).1;
              })
        ]
