-- ===== src/Remediation/Signing/Replay.antt =====
-- The actor's verification of jobs over time: core/remediation/signing.py with its ledger.
use mathlib.Core.List.{map}
use fathomline.Prelude.{
  ap, member-head, ℕ, ◌≤◌, ◌<◌, Bool, true, false, List, [], ◌∷◌, ◌≡◌, ◌↔◌, refl, arith, ◌==◌,
  member, Bool-cases, inl, inr,
}
use fathomline.Prelude.Json.{Text, Text_eq}
use fathomline.Prelude.Effect.{Outcome, ok, raised}
use fathomline.Remediation.Job.{DispatchJob, SignedJob, nonce_of, host_of, issued_of, expires_of}
use fathomline.Remediation.Nonce.{Ledger}
use fathomline.Remediation.Signing.{VerifyError, verify_job}

member_apart :
    (n m : Text) (seen : Ledger) → member n seen ≡ true → member m seen ≡ false → (n == m) ≡ false
member_apart n m seen h k = elim (Bool-cases (n == m)) [
  | inl e ↦
      let p : n ≡ m = (Text_eq.beq_iff n m).0 e in
      absurd (ground (arith, ap (λ t. member t seen) p))
  | inr e ↦ e
]

module _ (verify_signature : SignedJob → Bool) (host : Text) where
  -- All that a job has to satisfy.
  pub record Accepts (signed : SignedJob) (now : ℕ) (seen : Ledger) : Type 0 where
    pub genuine : verify_signature signed ≡ true
    pub begun : issued_of signed.job ≤ now
    pub not_over : now < expires_of signed.job
    pub addressed : host_of signed.job ≡ host
    pub fresh : member (nonce_of signed.job) seen ≡ false

  pub accepted :
      (signed : SignedJob) (now : ℕ) (seen : Ledger) {j : DispatchJob}
      → (verify_job verify_signature host signed now seen).0 ≡ ok j
      → Accepts signed now seen × (j ≡ signed.job)
  unfolding verify_job
  accepted signed now seen h = (
    record {
      genuine = ground arith;
      begun = ground arith;
      not_over = ground arith;
      addressed = (Text_eq.beq_iff _ _).0 (ground arith);
      fresh = ground arith;
    },
    ground arith,
  )

  -- A job is returned as it was signed, with its nonce put on the ledger, exactly when its
  -- signature verifies, its window is open, it is addressed to this host and its nonce is fresh.
  pub verify_job-Accepts :
      (signed : SignedJob) (now : ℕ) (seen : Ledger)
      → (verify_job verify_signature host signed now seen
          ≡ (ok signed.job, nonce_of signed.job ∷ seen))
        ↔ Accepts signed now seen
  verify_job-Accepts signed now seen = (
    λ h. (accepted signed now seen (ap (λ r. r.0) h)).0,
    λ a.
        unfold verify_job in
        ground (
          arith,
          a.genuine,
          a.begun,
          a.not_over,
          a.fresh,
          (Text_eq.beq_iff (host_of signed.job) host).1 a.addressed,
        ),
  )

  -- A job that is refused, for whatever reason, leaves the ledger as it was.
  pub verify_job-refused :
      (signed : SignedJob) (now : ℕ) (seen : Ledger) {e : VerifyError}
      → (verify_job verify_signature host signed now seen).0 ≡ raised e
      → (verify_job verify_signature host signed now seen).1 ≡ seen
  unfolding verify_job
  verify_job-refused signed now seen h = ground arith

  abbrev cons_ok : Outcome VerifyError DispatchJob → List DispatchJob → List DispatchJob
  cons_ok (ok j) js = j ∷ js
  cons_ok (raised e) js = js

  -- The jobs that are let through when signed jobs arrive one after another, each at its time.
  unfoldable pub accept_all : List (SignedJob × ℕ) → Ledger → List DispatchJob
  accept_all [] seen = []
  accept_all ((signed, now) ∷ rest) seen =
      let (r, seen') = verify_job verify_signature host signed now seen in
      cons_ok r (accept_all rest seen')

  ledger_grows :
      (signed : SignedJob) (now : ℕ) (seen : Ledger) (n : Text)
      → member n seen ≡ true
      → member n (verify_job verify_signature host signed now seen).1 ≡ true
  unfolding verify_job
  ledger_grows signed now seen n h = ground arith

  ledger_has :
      (signed : SignedJob) (now : ℕ) (seen : Ledger) {j : DispatchJob}
      → (verify_job verify_signature host signed now seen).0 ≡ ok j
      → (member (nonce_of j) (verify_job verify_signature host signed now seen).1 ≡ true)
        × (member (nonce_of j) seen ≡ false)
  unfolding verify_job
  ledger_has signed now seen h =
      (ground (arith, member-head (nonce_of signed.job) seen), ground arith)

  abbrev nonces : List DispatchJob → List Text
  nonces js = map nonce_of js

  not_next :
      (r : Outcome VerifyError DispatchJob) (js : List DispatchJob) (seen : Ledger) (n : Text)
      → member n seen ≡ true
      → ((j : DispatchJob) → r ≡ ok j → member (nonce_of j) seen ≡ false)
      → member n (nonces js) ≡ false
      → member n (nonces (cons_ok r js)) ≡ false
  not_next (raised e) js seen n h new out = out
  not_next (ok j) js seen n h new out =
      ground (arith, member_apart n (nonce_of j) seen h (new j refl))

  spent_stays_out :
      (arrivals : List (SignedJob × ℕ)) (seen : Ledger) (n : Text)
      → member n seen ≡ true
      → member n (nonces (accept_all arrivals seen)) ≡ false
  unfolding accept_all
  spent_stays_out [] seen n h = refl
  spent_stays_out ((signed, now) ∷ rest) seen n h =
      let step = verify_job verify_signature host signed now seen in
      not_next step.0 (accept_all rest step.1) seen n h (λ j e. (ledger_has signed now seen e).1)
        (spent_stays_out rest step.1 n (ledger_grows signed now seen n h))

  -- No text twice.
  abbrev pub AllDistinct : List Text → Type 0
  AllDistinct [] = Unit
  AllDistinct (t ∷ ts) = (member t ts ≡ false) × AllDistinct ts

  next-AllDistinct :
      (r : Outcome VerifyError DispatchJob) (js : List DispatchJob)
      → ((j : DispatchJob) → r ≡ ok j → member (nonce_of j) (nonces js) ≡ false)
      → AllDistinct (nonces js)
      → AllDistinct (nonces (cons_ok r js))
  next-AllDistinct (raised e) js new d = d
  next-AllDistinct (ok j) js new d = (new j refl, d)

  distinct :
      (arrivals : List (SignedJob × ℕ)) (seen : Ledger)
      → AllDistinct (nonces (accept_all arrivals seen))
  unfolding accept_all
  distinct [] seen = tt
  distinct ((signed, now) ∷ rest) seen =
      let step = verify_job verify_signature host signed now seen in
      next-AllDistinct step.0 (accept_all rest step.1)
        (λ j e. spent_stays_out rest step.1 (nonce_of j) (ledger_has signed now seen e).0)
        (distinct rest step.1)

  -- However jobs arrive, repeated, out of order or forged: of the jobs that are let through no two
  -- have the same nonce, and none has a nonce that the ledger held at the start.
  pub accept_all-AllDistinct :
      (arrivals : List (SignedJob × ℕ)) (seen : Ledger)
      → AllDistinct (map nonce_of (accept_all arrivals seen))
        × ((n : Text)
            → member n seen ≡ true
            → member n (map nonce_of (accept_all arrivals seen)) ≡ false)
  accept_all-AllDistinct arrivals seen = (distinct arrivals seen, spent_stays_out arrivals seen)
