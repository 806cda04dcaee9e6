-- ===== src/Audit/Building.antt =====
-- What the builder of core/audit.py emits is a chain that `verify_chain` accepts.
use fathomline.Prelude.{
  Bool, true, Option, none, some, List, [], ◌∷◌, ◌++◌, ◌≡◌, refl, arith, ◌==◌, Bool-cases, inl, inr,
  ◌⊎◌, ◌&&◌, ◌∙◌, sym,
}
use mathlib.Core.List.{map, map-append, append-nil, append_assoc}
use fathomline.Prelude.Json.{Text, Text_eq, Json}
use fathomline.Audit.{
  AuditRecord, AuditChain, Codec, new_record, genesis_hash, new_chain, emit, append, splice,
  verify_from, verify_chain, record_payload, compute_row_hash, rechain,
}

-- The hash that the next record of a chain is to be linked to.
unfoldable pub head_from : Text → List AuditRecord → Text
head_from prev [] = prev
head_from prev (r ∷ rest) = head_from r.row_hash rest

-- What a caller asks of the builder: to log an action of its own, at a time, or to take over a
-- record that was built elsewhere.
pub data Request : Type 0 where
  log : Text → Text → Text → Text → Json → Text → Request
  take_over : AuditRecord → Request

module _ (k : Codec) where
  abbrev links : Text → AuditRecord → Bool
  links prev r = r.prev_hash == prev && compute_row_hash k prev (record_payload k r) == r.row_hash

  pub verify_from-append :
      (prev : Text) (xs ys : List AuditRecord)
      → verify_from k prev (xs ++ ys)
        ≡ (verify_from k prev xs && verify_from k (head_from prev xs) ys)
  unfolding verify_from head_from
  verify_from-append prev [] ys = refl
  verify_from-append prev (x ∷ xs) ys = ground (arith, verify_from-append x.row_hash xs ys)

  pub head_from-append :
      (prev : Text) (xs ys : List AuditRecord)
      → head_from prev (xs ++ ys) ≡ head_from (head_from prev xs) ys
  unfolding head_from
  head_from-append prev [] ys = refl
  head_from-append prev (x ∷ xs) ys = head_from-append x.row_hash xs ys

  -- A builder's state: its records verify, and its head is the hash of the last of them.
  pub record IsLinked (c : AuditChain) : Type 0 where
    pub verifies : verify_chain k c.emitted genesis_hash ≡ true
    pub at_head : c.head ≡ head_from genesis_hash c.emitted

  pub new_chain-IsLinked : IsLinked new_chain
  unfolding new_chain verify_chain head_from
  new_chain-IsLinked = record { verifies = refl; at_head = refl }

  extended-IsLinked :
      (c : AuditChain) (r : AuditRecord)
      → IsLinked c
      → r.prev_hash ≡ c.head
      → compute_row_hash k c.head (record_payload k r) ≡ r.row_hash
      → IsLinked (record { emitted = c.emitted ++ r ∷ []; head = r.row_hash })
  unfolding verify_chain verify_from head_from
  extended-IsLinked c r l p q = record {
    verifies = ground (
      arith,
      verify_from-append genesis_hash c.emitted (r ∷ []),
      Text_eq.beq_iff r.prev_hash c.head,
      Text_eq.beq_iff (compute_row_hash k c.head (record_payload k r)) r.row_hash,
    );
    at_head = ground (arith, head_from-append genesis_hash c.emitted (r ∷ []));
  }

  module _ (sink : List AuditRecord → AuditRecord → Bool) where
    abbrev kept : AuditChain → Option (AuditChain × AuditRecord) → AuditChain
    kept c none = c
    kept c (some (c', r)) = c'

    -- A call that raises leaves the builder as it was.
    unfoldable pub perform : AuditChain → Request → AuditChain
    perform c (log now actor action target before result) =
        kept c (append k sink c now actor action target before result)
    perform c (take_over r) = kept c (splice k sink c r)

    unfoldable pub perform_all : AuditChain → List Request → AuditChain
    unfolding perform
    perform_all c [] = c
    perform_all c (q ∷ qs) = perform_all (perform c q) qs

    emit-IsLinked :
        (c : AuditChain) (r : AuditRecord)
        → IsLinked c
        → r.prev_hash ≡ c.head
        → compute_row_hash k c.head (record_payload k r) ≡ r.row_hash
        → IsLinked (kept c (emit k sink c r))
    unfolding emit
    emit-IsLinked c r l p q = elim (Bool-cases (sink c.emitted r)) [
      | inl e ↦ rw e (extended-IsLinked c r l p q)
      | inr e ↦ rw e l
    ]

    -- What a call of `append` that returns has done.
    pub record Appended (c c' : AuditChain) (r : AuditRecord) (actor action target : Text)
        (before : Json) (result : Text) : Type 0 where
      pub longer : c'.emitted ≡ c.emitted ++ r ∷ []
      pub actor_of : r.actor ≡ actor
      pub action_of : r.action ≡ action
      pub target_of : r.target ≡ target
      pub before_of : r.before_state ≡ before
      pub result_of : r.result ≡ result
      pub keeps_links : IsLinked c → IsLinked c'

    pub append-cases :
        (c : AuditChain) (now actor action target : Text) (before : Json) (result : Text)
        → (append k sink c now actor action target before result ≡ none)
          ⊎ ((c' : AuditChain) × (r : AuditRecord) × (append k sink c now actor action target before
                  result
                ≡ some (c', r))
              × Appended c c' r actor action target before result)
    unfolding append
    append-cases c now actor action target before result =
        let r = new_record k c.head now actor action target before result in
        elim (Bool-cases (sink c.emitted r)) [
          | inl e ↦ inr (
            record { emitted = c.emitted ++ r ∷ []; head = r.row_hash },
            r,
            rw e,
            record {
              longer = refl;
              actor_of = refl;
              action_of = refl;
              target_of = refl;
              before_of = refl;
              result_of = refl;
              keeps_links = λ l. extended-IsLinked c r l refl (unfold record_payload in refl);
            },
          )
          | inr e ↦ inl (rw e)
        ]

    pub splice-cases :
        (c : AuditChain) (r : AuditRecord)
        → (splice k sink c r ≡ none)
          ⊎ ((c' : AuditChain) × (r' : AuditRecord) × (splice k sink c r ≡ some (c', r'))
              × (c'.emitted ≡ c.emitted ++ r' ∷ [])
              × (IsLinked c → IsLinked c'))
    unfolding splice rechain
    splice-cases c r =
        let r' = rechain k r c.head in
        elim (Bool-cases (sink c.emitted r')) [
          | inl e ↦ inr (
            record { emitted = c.emitted ++ r' ∷ []; head = r'.row_hash },
            r',
            rw e,
            refl,
            λ l. extended-IsLinked c r' l refl (unfold record_payload in refl),
          )
          | inr e ↦ inl (rw e)
        ]

    perform-IsLinked : (c : AuditChain) (q : Request) → IsLinked c → IsLinked (perform c q)
    unfolding perform append splice rechain
    perform-IsLinked c (log now actor action target before result) l =
        emit-IsLinked c (new_record k c.head now actor action target before result) l refl
          (unfold record_payload in refl)
    perform-IsLinked c (take_over r) l = emit-IsLinked c _ l refl (unfold record_payload in refl)

    perform_all-IsLinked :
        (c : AuditChain) (qs : List Request) → IsLinked c → IsLinked (perform_all c qs)
    unfolding perform_all
    perform_all-IsLinked c [] l = l
    perform_all-IsLinked c (q ∷ qs) l =
        perform_all-IsLinked (perform c q) qs (perform-IsLinked c q l)

    -- Whatever is logged or spliced in, in whatever order and however often the sink raises, the
    -- records that the sink took form a chain that `verify_chain` accepts, and `head` is the hash
    -- that the next record has to be linked to.
    pub built-IsLinked : (qs : List Request) → IsLinked (perform_all new_chain qs)
    built-IsLinked qs = perform_all-IsLinked new_chain qs new_chain-IsLinked

-- The content of a record, without its links.
abbrev pub Content : Type 0
Content = Text × Text × Text × Text × Json × Text

abbrev pub content : AuditRecord → Content
content r = (r.ts, r.actor, r.action, r.target, r.before_state, r.result)

abbrev pub asked : Request → Content
asked (log now actor action target before result) = (now, actor, action, target, before, result)
asked (take_over r) = content r

module _ (k : Codec) (sink : List AuditRecord → AuditRecord → Bool)
    (takes_all : (l : List AuditRecord) (r : AuditRecord) → sink l r ≡ true) where
  perform-content :
      (c : AuditChain) (q : Request)
      → map content (perform k sink c q).emitted ≡ map content c.emitted ++ asked q ∷ []
  unfolding perform append splice rechain emit
  perform-content c (log now actor action target before result) = rw (takes_all, map-append)
  perform-content c (take_over r) = rw (takes_all, map-append)

  -- When the sink never raises, what the builder has logged or taken over is on the log after what
  -- was there, in order, each field as it was given but for the links.
  pub content-perform_all :
      (c : AuditChain) (qs : List Request)
      → map content (perform_all k sink c qs).emitted ≡ map content c.emitted ++ map asked qs
  unfolding perform_all
  content-perform_all c [] = sym (append-nil _)
  content-perform_all c (q ∷ qs) =
      content-perform_all (perform k sink c q) qs ∙ rw (perform-content c q, append_assoc)
