-- ===== src/Remediation/Signing.antt =====
-- core/remediation/signing.py: signing a job and verifying it on every axis. The Ed25519 primitive,
-- HMAC-SHA256 and base64 are parameters.
pub mod Verifying
pub mod Replay
pub mod Tests
use fathomline.Prelude.{
  ℕ, Bool, true, false, not, ◌&&◌, ◌||◌, Option, none, some, List, [], ◌∷◌, if◌then◌else◌, ◌==◌,
  ℕ_eq, ltb, leb,
}
use fathomline.Prelude.Json.{Text, Text_eq}
use fathomline.Prelude.Effect.{Outcome, ok, raised}
use fathomline.Audit.{Codec}
use fathomline.Remediation.Job.{
  DispatchJob, canonical_bytes, nonce_of, host_of, issued_of, expires_of, Algorithm, ed25519,
  hmac_sha256, SignedJob,
}
use fathomline.Remediation.Nonce.{Ledger, consume}

-- `b64decode` raises on what is no base64.
pub record Crypto : Type 0 where
  pub codec : Codec
  pub isoformat : ℕ → Text
  pub b64encode : Text → Text
  pub b64decode : Text → Option Text
  pub ed25519_sign : Text → Text → Text
  pub ed25519_verify : Text → Text → Text → Bool
  pub hmac : Text → Text → Text

pub record KeyPair : Type 0 where
  pub key : Text
  pub key_id : Text

abbrev is_ed25519 : Algorithm → Bool
is_ed25519 ed25519 = true
is_ed25519 hmac_sha256 = false

abbrev pub on_decoded : Option Text → (Text → Bool) → Bool
on_decoded none f = false
on_decoded (some t) f = f t

module _ (c : Crypto) where
  abbrev signed_bytes : DispatchJob → Text
  signed_bytes = canonical_bytes c.codec c.isoformat

  -- `Ed25519Signer.sign`
  unfoldable pub ed25519_sign_job : KeyPair → DispatchJob → SignedJob
  ed25519_sign_job private job = record {
    job = job;
    key_id = private.key_id;
    algorithm = ed25519;
    signature = c.b64encode (c.ed25519_sign private.key (signed_bytes job));
  }

  -- `Ed25519Verifier.verify_signature`
  unfoldable pub ed25519_verify_signature : KeyPair → SignedJob → Bool
  ed25519_verify_signature trusted signed =
      if not (is_ed25519 signed.algorithm) || not (signed.key_id == trusted.key_id)
      then false
      else on_decoded (c.b64decode signed.signature)
          (λ s. c.ed25519_verify trusted.key s (signed_bytes signed.job))

  -- `HmacSigner.sign`
  unfoldable pub hmac_sign_job : KeyPair → DispatchJob → SignedJob
  hmac_sign_job shared job = record {
    job = job;
    key_id = shared.key_id;
    algorithm = hmac_sha256;
    signature = c.b64encode (c.hmac shared.key (signed_bytes job));
  }

  -- `HmacVerifier.verify_signature`
  unfoldable pub hmac_verify_signature : KeyPair → SignedJob → Bool
  hmac_verify_signature shared signed =
      if is_ed25519 signed.algorithm || not (signed.key_id == shared.key_id)
      then false
      else on_decoded (c.b64decode signed.signature)
          (λ s. c.hmac shared.key (signed_bytes signed.job) == s)

  -- The checkpoint primitives of the audit head: bytes in, bytes out.
  unfoldable pub ed25519_checkpoint_verify : KeyPair → Text → Text → Bool
  ed25519_checkpoint_verify trusted message signature =
      c.ed25519_verify trusted.key signature message

  unfoldable pub hmac_checkpoint_verify : KeyPair → Text → Text → Bool
  hmac_checkpoint_verify shared message signature = c.hmac shared.key message == signature

pub data VerifyError : Type 0 where
  signature_failed expired not_yet_valid wrong_host nonce_reuse : VerifyError

abbrev consumed : DispatchJob → Bool × Ledger → Outcome VerifyError DispatchJob × Ledger
consumed job (true, seen) = (ok job, seen)
consumed job (false, seen) = (raised nonce_reuse, seen)

-- `verify_job`, with the signature check of the trusted key, the agent's own host id and the time.
unfoldable pub verify_job :
    (SignedJob → Bool) → Text → SignedJob → ℕ → Ledger → Outcome VerifyError DispatchJob × Ledger
unfolding consume
verify_job verify_signature expected_host_id signed now seen =
    if not (verify_signature signed)
    then (raised signature_failed, seen)
    else if leb (expires_of signed.job) now
    then (raised expired, seen)
    else if ltb now (issued_of signed.job)
    then (raised not_yet_valid, seen)
    else if not (host_of signed.job == expected_host_id)
    then (raised wrong_host, seen)
    else consumed signed.job (consume (nonce_of signed.job) seen)
