-- ===== src/Remediation/Signing/Verifying.antt =====
-- What the verifiers of core/remediation/signing.py accept.
use fathomline.Prelude.{true, false, some, ◌≡◌, arith, ==_refl}
use fathomline.Prelude.Json.{Text, Text_eq}
use fathomline.Remediation.Job.{DispatchJob}
use fathomline.Remediation.Signing.{
  Crypto, KeyPair, ed25519_sign_job, ed25519_verify_signature, hmac_sign_job, hmac_verify_signature,
  signed_bytes,
}

-- base64 and Ed25519 as documented: decoding undoes encoding, and the signature made with a
-- private key verifies under the public key of the same pair.
pub record IsDocumented (c : Crypto) (pairs : Text → Text → Type 0) : Type 0 where
  pub b64_round_trip : (t : Text) → c.b64decode (c.b64encode t) ≡ some t
  pub signature_verifies :
      (private public message : Text)
      → pairs private public
      → c.ed25519_verify public (c.ed25519_sign private message) message ≡ true

module _ (c : Crypto) (pairs : Text → Text → Type 0) (doc : IsDocumented c pairs) where
  -- A job that was signed with a key verifies under the matching key of the same id, for Ed25519 and
  -- for HMAC, given that decoding undoes encoding and that an Ed25519 signature verifies under the
  -- public key of the pair; neither verifier takes a job that was signed with the other algorithm.
  pub sign-verify :
      (private public : KeyPair) (job : DispatchJob)
      → pairs private.key public.key
      → private.key_id ≡ public.key_id
      → (ed25519_verify_signature c public (ed25519_sign_job c private job) ≡ true)
        × (hmac_verify_signature c private (hmac_sign_job c private job) ≡ true)
        × (ed25519_verify_signature c public (hmac_sign_job c private job) ≡ false)
        × (hmac_verify_signature c private (ed25519_sign_job c private job) ≡ false)
  unfolding ed25519_verify_signature ed25519_sign_job hmac_verify_signature hmac_sign_job
  sign-verify private public job pair same = (
    ground (
      arith,
      doc.b64_round_trip (c.ed25519_sign private.key (signed_bytes c job)),
      doc.signature_verifies private.key public.key (signed_bytes c job) pair,
      (Text_eq.beq_iff private.key_id public.key_id).1 same,
    ),
    ground (
      arith,
      doc.b64_round_trip (c.hmac private.key (signed_bytes c job)),
      ==_refl private.key_id,
      ==_refl (c.hmac private.key (signed_bytes c job)),
    ),
    ground arith,
    ground arith,
  )
