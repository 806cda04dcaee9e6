-- ===== src/Audit/Tamper.antt =====
-- What `verify_chain` of core/audit.py proves about a log, if blake3 has no collisions.
use fathomline.Prelude.{
  ℕ, ◌<◌, true, List, [], ◌∷◌, ◌++◌, ◌≡◌, ◌≢◌, ap₂, subst, refl, arith, length, All, sym, ap, ◌∙◌,
}
use native.Mathlib.Decide.{dec_lt}
use fathomline.Prelude.Json.{Text, Text_eq, Json}
use fathomline.Audit.{
  AuditRecord, Codec, genesis_hash, verify_from, verify_chain, record_payload, compute_row_hash,
}
use fathomline.Audit.Building.{head_from, verify_from-append, head_from-append}

abbrev pub Clean : Text → Type 0
Clean = All (λ b. b ≢ 0)

-- What the log relies on: JSON text names its value, blake3 has no collision, its hexadecimal
-- digest has no NUL, and no known text has the genesis value for its digest.
pub record IsSound (k : Codec) : Type 0 where
  pub dumps_injective : (a b : Json) → k.dumps a ≡ k.dumps b → a ≡ b
  pub blake3_injective : (a b : Text) → k.blake3 a ≡ k.blake3 b → a ≡ b
  pub digest_clean : (a : Text) → Clean (k.blake3 a)
  pub not_genesis : (a : Text) → k.blake3 a ≢ genesis_hash

split_at_nul :
    (p q s t : Text) → Clean p → Clean q → p ++ (0 ∷ s) ≡ q ++ (0 ∷ t) → (p ≡ q) × (s ≡ t)
split_at_nul [] [] s t hp hq e = ground arith
split_at_nul [] (b ∷ q) s t hp hq e = ground arith
split_at_nul (a ∷ p) [] s t hp hq e = ground arith
split_at_nul (a ∷ p) (b ∷ q) s t hp hq e =
    let (x, y) = split_at_nul p q s t hp.1 hq.1 (cc) in (ground arith, y)

genesis-Clean : Clean genesis_hash
unfolding genesis_hash
genesis-Clean = omega arith

-- A list cut where `n` elements are left.
cut :
    {A : Type 0} (n : ℕ) (ys : List A)
    → n < length ys
    → (y : A) × (front : List A) × (back : List A) × (ys ≡ y ∷ (front ++ back)) × (length back ≡ n)
cut n [] h = absurd (omega arith)
cut n (y ∷ ys) h = elim (dec_lt n (length ys)) [
  | yes p ↦ let (z, front, back, e, l) = cut n ys p in (y, z ∷ front, back, ap (◌∷◌ y) e, l)
  | no p ↦ (y, [], ys, refl, omega arith)
]

module _ (k : Codec) (sound : IsSound k) where
  open sound use {dumps_injective, blake3_injective, digest_clean, not_genesis}

  -- Two records that verify after clean hashes and have one row hash are one record.
  same_record :
      (p q : Text) (r s : AuditRecord)
      → Clean p
      → Clean q
      → r.prev_hash ≡ p
      → s.prev_hash ≡ q
      → compute_row_hash k p (record_payload k r) ≡ r.row_hash
      → compute_row_hash k q (record_payload k s) ≡ s.row_hash
      → r.row_hash ≡ s.row_hash
      → (p ≡ q) × (r ≡ s)
  unfolding compute_row_hash record_payload
  same_record p q r s cp cq rp sq hr hs e =
      let (same_prev, same_payload) =
        split_at_nul p q _ _ cp cq (blake3_injective _ _ (hr ∙ e ∙ sym hs)) in
      let members = dumps_injective _ _ same_payload in (same_prev, ground arith)

  linked :
      (p : Text) (r : AuditRecord) (rest : List AuditRecord)
      → verify_from k p (r ∷ rest) ≡ true
      → (r.prev_hash ≡ p)
        × (compute_row_hash k p (record_payload k r) ≡ r.row_hash)
        × (verify_from k r.row_hash rest ≡ true)
  unfolding verify_from
  linked p r rest v = ground (
    arith,
    Text_eq.beq_iff r.prev_hash p,
    Text_eq.beq_iff (compute_row_hash k p (record_payload k r)) r.row_hash,
  )

  -- Two verified runs of one length that end in one hash start from one hash and are equal.
  same_run :
      (p q : Text) (xs ys : List AuditRecord)
      → Clean p
      → Clean q
      → length xs ≡ length ys
      → verify_from k p xs ≡ true
      → verify_from k q ys ≡ true
      → head_from p xs ≡ head_from q ys
      → (p ≡ q) × (xs ≡ ys)
  unfolding head_from verify_from compute_row_hash
  same_run p q [] [] cp cq n vx vy e = (e, refl)
  same_run p q [] (y ∷ ys) cp cq n vx vy e = absurd (omega arith)
  same_run p q (x ∷ xs) [] cp cq n vx vy e = absurd (omega arith)
  same_run p q (x ∷ xs) (y ∷ ys) cp cq n vx vy e =
      let lx = linked p x xs vx in
      let ly = linked q y ys vy in
      let (same_hash, rest) =
        same_run x.row_hash y.row_hash xs ys (rw (← lx.1) (digest_clean _))
          (rw (← ly.1) (digest_clean _)) (omega arith) lx.2 ly.2 e in
      let (start, first) = same_record p q x y cp cq lx.0 ly.0 lx.1 ly.1 same_hash in
      (start, ap₂ ◌∷◌ first rest)

  -- A verified run that is not empty ends in a digest.
  ends_in_digest :
      (p : Text) (r : AuditRecord) (rest : List AuditRecord)
      → verify_from k p (r ∷ rest) ≡ true
      → (t : Text) × (k.blake3 t ≡ head_from p (r ∷ rest))
  unfolding head_from compute_row_hash
  ends_in_digest p r [] v = (_, (linked p r [] v).1)
  ends_in_digest p r (s ∷ rest) v = ends_in_digest r.row_hash s rest (linked p r (s ∷ rest) v).2

  -- Of two verified logs with one last hash neither is the longer.
  not_longer :
      (xs ys : List AuditRecord)
      → verify_chain k xs genesis_hash ≡ true
      → verify_chain k ys genesis_hash ≡ true
      → head_from genesis_hash xs ≡ head_from genesis_hash ys
      → ¬ (length xs < length ys)
  unfolding verify_chain
  not_longer xs ys vx vy e h =
      let (y, front, back, split, n) = cut (length xs) ys h in
      let both : verify_from k genesis_hash ((y ∷ front) ++ back) ≡ true =
        subst (λ l. verify_from k genesis_hash l ≡ true) split vy in
      let halves = verify_from-append k genesis_hash (y ∷ front) back in
      let (t, digest) = ends_in_digest genesis_hash y front (ground (arith, both, halves)) in
      let (start, _) =
        same_run genesis_hash (head_from genesis_hash (y ∷ front)) xs back genesis-Clean
          (rw (← digest) (digest_clean t)) (sym n) vx (ground (arith, both, halves))
          (e
            ∙ ap (head_from genesis_hash) split
            ∙ head_from-append k genesis_hash (y ∷ front) back) in
      not_genesis t (digest ∙ sym start)

  -- With a JSON writer and a hash that are injective, and digests without a NUL that are never the
  -- genesis hash, the last hash of a log determines the log: of two logs that verify from the
  -- genesis hash and end in the same row hash, no record differs, is missing, is added or is
  -- moved.
  pub verified_logs_equal :
      (xs ys : List AuditRecord)
      → verify_chain k xs genesis_hash ≡ true
      → verify_chain k ys genesis_hash ≡ true
      → head_from genesis_hash xs ≡ head_from genesis_hash ys
      → xs ≡ ys
  unfolding verify_chain
  verified_logs_equal xs ys vx vy e =
      let short = not_longer xs ys vx vy e in
      let long = not_longer ys xs vy vx (sym e) in
      (same_run genesis_hash genesis_hash xs ys genesis-Clean genesis-Clean (omega arith) vx vy e).1

-- A log that verifies still verifies when its last records are cut off.
pub verify_chain-prefix :
    (k : Codec) (xs ys : List AuditRecord) (genesis : Text)
    → verify_chain k (xs ++ ys) genesis ≡ true
    → verify_chain k xs genesis ≡ true
unfolding verify_chain
verify_chain-prefix k xs ys genesis v = ground (arith, verify_from-append k genesis xs ys)
