-- ===== src/Remediation/Signing/Tests.antt =====
-- Instances for the modules about jobs, signatures and nonces, with a signature that is the key in
-- front of the message.
use fathomline.Prelude.{
  ℕ, Bool, true, false, some, List, [], ◌∷◌, ◌++◌, map, member, ◌≡◌, ◌↔◌, refl, arith, ◌==◌,
  ==_refl,
}
use fathomline.Prelude.Json.{Text, Text_eq, codes}
use fathomline.Prelude.Effect.{ok, raised}
use fathomline.Audit.Sample.{sample_codec, sample-IsSound}
use fathomline.Remediation.Job.{DispatchJob, action, SignedJob, nonce_of}
use fathomline.Remediation.Job.Sealing.{printed_job, canonical_bytes_injective}
use fathomline.Remediation.Signing.{
  Crypto, KeyPair, expired, verify_job, ed25519_sign_job, ed25519_verify_signature, hmac_sign_job,
  hmac_verify_signature,
}
use fathomline.Remediation.Signing.Verifying.{IsDocumented, sign-verify}
use fathomline.Remediation.Signing.Replay.{
  Accepts, verify_job-Accepts, accept_all, AllDistinct, accept_all-AllDistinct,
}
use fathomline.Remediation.Sample.{good_item, job_with}

abbrev pub crypto : Crypto
crypto = record {
  codec = sample_codec;
  isoformat = λ n. n ∷ [];
  b64encode = λ t. t;
  b64decode = some;
  ed25519_sign = λ k m. k ++ m;
  ed25519_verify = λ k s m. s == k ++ m;
  hmac = λ k m. k ++ m;
}

abbrev pub SameKey : Text → Text → Type 0
SameKey a b = a ≡ b

pub crypto-IsDocumented : IsDocumented crypto SameKey
crypto-IsDocumented = record {
  b64_round_trip = λ t. refl;
  signature_verifies = λ a b m same. rw same (==_refl (b ++ m));
}

abbrev pub key : KeyPair
key = record { key = codes "s"; key_id = codes "k1" }

abbrev job : DispatchJob
job = action (job_with (good_item ∷ []))

abbrev signed : SignedJob
signed = ed25519_sign_job crypto key job

canonical_bytes_injective_example : printed_job job ≡ printed_job job
canonical_bytes_injective_example =
    canonical_bytes_injective sample_codec (λ n. n ∷ []) (sample-IsSound.dumps_injective)
      (λ a b e. ground arith) job job refl

sign-verify_example :
    (ed25519_verify_signature crypto key signed ≡ true)
    × (hmac_verify_signature crypto key (hmac_sign_job crypto key job) ≡ true)
    × (ed25519_verify_signature crypto key (hmac_sign_job crypto key job) ≡ false)
    × (hmac_verify_signature crypto key signed ≡ false)
sign-verify_example = sign-verify crypto SameKey crypto-IsDocumented key key job refl refl

abbrev genuine : SignedJob → Bool
genuine = ed25519_verify_signature crypto key

verify_job-Accepts_example :
    (verify_job genuine (codes "h") signed 15 [] ≡ (ok signed.job, nonce_of signed.job ∷ []))
    ↔ Accepts genuine (codes "h") signed 15 []
verify_job-Accepts_example = verify_job-Accepts genuine (codes "h") signed 15 []

too_late : (verify_job genuine (codes "h") signed 20 []).0 ≡ raised expired
unfolding verify_job ed25519_sign_job
too_late = rw sign-verify_example.0 refl

abbrev arrivals : List (SignedJob × ℕ)
arrivals = (signed, 15) ∷ (signed, 16) ∷ (signed, 30) ∷ []

accept_all-AllDistinct_example :
    AllDistinct genuine (codes "h") (map nonce_of (accept_all genuine (codes "h") arrivals []))
    × ((n : Text)
        → member n [] ≡ true
        → member n (map nonce_of (accept_all genuine (codes "h") arrivals [])) ≡ false)
accept_all-AllDistinct_example = accept_all-AllDistinct genuine (codes "h") arrivals []
