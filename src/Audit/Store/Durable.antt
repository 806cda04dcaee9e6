-- ===== src/Audit/Store/Durable.antt =====
-- What a caller of core/audit_store.py gets: a record in the table, linked behind those that were
-- there, whatever other writers commit meanwhile.
use mathlib.Core.List.{append-nil, append_assoc, Sublist, nil-sublist}
use mathlib.Core.List.Sublist
use fathomline.Prelude.{
  ℕ, ◌+◌, List, [], ◌∷◌, ◌++◌, map, ◌≡◌, refl, arith, ap, sym, ◌∙◌, subst, ap₂,
}
use fathomline.Prelude.Json.{Text, Json}
use fathomline.Prelude.Effect.{Outcome, ok, raised, Effect, and_then, pure, ◌>>=◌}
use fathomline.Audit.{AuditRecord, Codec, new_record, rechain, record_payload}
use fathomline.Audit.Building.{content}
use fathomline.Audit.Store.{
  Table, StoreError, persisted_records, Database, append_durable, splice_record_durable,
  append_records_durable, max_append_retries,
}
use fathomline.Audit.Store.Appending.{IsLinked, Extends, IsFor, Added, win_head-Added}

module _ (k : Codec) where
  pub new_record-IsFor :
      (head ts actor action target : Text) (before_state : Json) (result : Text)
      → IsFor k head (new_record k head ts actor action target before_state result)
  unfolding new_record record_payload
  new_record-IsFor head ts actor action target before_state result = record {
    links = refl;
    hashes = refl;
  }

  rechain-IsFor : (head : Text) (r : AuditRecord) → IsFor k head (rechain k r head)
  unfolding rechain record_payload
  rechain-IsFor head r = record { links = refl; hashes = refl }

  -- What a call for several records leaves: more rows, still linked, and if it returns, a record
  -- for each, in their order.
  pub record AllAdded (records : List AuditRecord) (t : Table)
      (s : Outcome StoreError (List AuditRecord)) (t' : Table) : Type 0 where
    pub more : List AuditRecord
    pub longer : persisted_records t' ≡ persisted_records t ++ more
    pub linked : IsLinked k t'
    pub in_order :
        (out : List AuditRecord)
        → s ≡ ok out
        → (map content out ≡ map content records) × Sublist out more

module _ (k : Codec) (db : Database)
    (fair : (i : ℕ) (t : Table) → IsLinked k t → Extends k t (db.rivals i t)) where
  -- While other writers only add linked rows, the log stays linked through a call: no row that was
  -- there is lost or moved, the rows of the others and then at most one of the caller's own are
  -- behind them, and a call that returns has put what it was asked to log, with the time of one of
  -- its attempts.
  pub append_durable-Added :
      (now : ℕ → Text) (actor action target : Text) (before_state : Json) (result : Text) (i : ℕ)
      (t : Table)
      → IsLinked k t
      → let r = append_durable db k now actor action target before_state result i t in
        Added k
          (λ a. (j : ℕ) × (content a ≡ (now j, actor, action, target, before_state, result)))
          t
          r.0
          r.1
  unfolding append_durable new_record
  append_durable-Added now actor action target before_state result i t l =
      win_head-Added k db fair _
        (λ j head. new_record k head (now j) actor action target before_state result)
        (λ j head.
          (new_record-IsFor k head (now j) actor action target before_state result, (j, refl)))
        max_append_retries i t l

  spliced-Added :
      (r : AuditRecord) (i : ℕ) (t : Table)
      → IsLinked k t
      → let s = splice_record_durable db k r i t in Added k (λ a. content a ≡ content r) t s.0 s.1
  unfolding splice_record_durable rechain
  spliced-Added r i t l =
      win_head-Added k db fair _ (λ j head. rechain k r head)
        (λ j head. (rechain-IsFor k head r, refl)) max_append_retries i t l

  module _ (r : AuditRecord) (rest : List AuditRecord) (t t' : Table) where
    both_longer :
        (x : AuditRecord) (a : Added k (λ a. content a ≡ content r) t (ok x) t')
        (out : Outcome StoreError (List AuditRecord)) (t'' : Table) (b : AllAdded k rest t' out t'')
        → persisted_records t'' ≡ persisted_records t ++ ((a.others ++ x ∷ []) ++ b.more)
    both_longer x a out t'' b =
        b.longer
        ∙ ap (λ rs. rs ++ b.more) a.longer
        ∙ append_assoc (persisted_records t) (a.others ++ x ∷ []) b.more

    then_others :
        (x : AuditRecord)
        → Added k (λ a. content a ≡ content r) t (ok x) t'
        → (out : Outcome StoreError (List AuditRecord)) (t'' : Table) → AllAdded k rest t' out t''
        → let s = and_then out (λ others. pure (x ∷ others)) t'' in AllAdded k (r ∷ rest) t s.0 s.1
    then_others x a (raised e) t'' b = record {
      more = (a.others ++ x ∷ []) ++ b.more;
      longer = both_longer x a (raised e) t'' b;
      linked = b.linked;
      in_order = λ out e'. cc;
    }
    then_others x a (ok others) t'' b =
        let (same, found) = b.in_order others refl in
        let first : Sublist (x ∷ []) (a.others ++ x ∷ []) =
          Sublist.append (nil-sublist a.others) (Sublist.refl (x ∷ [])) in
        record {
          more = (a.others ++ x ∷ []) ++ b.more;
          longer = both_longer x a (ok others) t'' b;
          linked = b.linked;
          in_order = λ out e.
              subst
                (λ o.
                  (map content o ≡ map content (r ∷ rest))
                  × Sublist o ((a.others ++ x ∷ []) ++ b.more))
                (ground (arith, e)) (ap₂ ◌∷◌ (a.as_wanted x refl) same, Sublist.append first found);
        }

    all_added :
        (spliced : Outcome StoreError AuditRecord)
        → Added k (λ a. content a ≡ content r) t spliced t'
        → (others : Effect Table StoreError (List AuditRecord))
        → AllAdded k rest t' (others t').0 (others t').1
        → let s = and_then spliced (λ a. others >>= λ out. pure (a ∷ out)) t' in
          AllAdded k (r ∷ rest) t s.0 s.1
    all_added (raised e) a others b = record {
      more = a.others ++ [];
      longer = a.longer;
      linked = a.linked;
      in_order = λ out e'. cc;
    }
    all_added (ok x) a others b = then_others x a (others t').0 (others t').1 b

  -- While other writers only add linked rows, a call for several records keeps every row that was
  -- there in its place and the log linked, and if it returns, it returns a record for each one that
  -- was asked for, in their order and with their contents, and the rows that were added contain
  -- these in this order.
  pub append_records_durable-AllAdded :
      (records : List AuditRecord) (i : ℕ) (t : Table)
      → IsLinked k t
      → let s = append_records_durable db k records i t in AllAdded k records t s.0 s.1
  unfolding append_records_durable
  append_records_durable-AllAdded [] i t l = record {
    more = [];
    longer = sym (append-nil _);
    linked = l;
    in_order = λ out e.
        subst (λ o. (map content o ≡ []) × Sublist o []) (ground (arith, e))
          (refl, Sublist.refl []);
  }
  append_records_durable-AllAdded (r ∷ rest) i t l =
      let first = spliced-Added r i t l in
      all_added r rest t (splice_record_durable db k r i t).1 (splice_record_durable db k r i t).0
        first (append_records_durable db k rest (i + max_append_retries))
        (append_records_durable-AllAdded rest (i + max_append_retries)
          (splice_record_durable db k r i t).1 first.linked)
