-- ===== src/Preview/Grant.antt =====
-- preview/grant.py: a signed grant for one file, and its verification by the agent. Ed25519, base64 and
-- the JSON writer are parameters; times are numbers and carry a time zone.
pub mod Single
mod Tests
use fathomline.Prelude.{
  ℕ, Bool, true, false, not, ◌||◌, Option, some, ◌∷◌, [], if◌then◌else◌, ◌==◌, ℕ_eq, ltb, leb,
}
use fathomline.Prelude.Json.{
  Text, Text_eq, Json, ℤ, int, num, str, opt_str, obj, end, member, codes,
}
use fathomline.Prelude.Effect.{Outcome, ok, raised}
use fathomline.Audit.{Codec}
use fathomline.Remediation.Nonce.{Ledger, consume}
use fathomline.Remediation.Signing.{Crypto, KeyPair, on_decoded}

-- An inode is the number of the file system read as a signed one, so it can be negative.
pub record FileGrant : Type 0 where
  pub grant_id : Text
  pub entry_id : ℕ
  pub host_id : Text
  pub volume_id : ℕ
  pub inode : ℤ
  pub path : Text
  pub content_hash : Option Text
  pub nonce : Text
  pub issued_at : ℕ
  pub expires_at : ℕ

-- The algorithm is whatever text the sender put there.
pub record SignedFileGrant : Type 0 where
  pub grant : FileGrant
  pub key_id : Text
  pub algorithm : Text
  pub signature : Text

pub data GrantError : Type 0 where
  signature_failed expired not_yet_valid wrong_host replay : GrantError

module _ (c : Crypto) where
  abbrev payload : FileGrant → Json
  payload g = obj (
      member (codes "content_hash") (opt_str g.content_hash) (
        member (codes "entry_id") (num g.entry_id) (
          member (codes "expires_at") (str (c.isoformat g.expires_at)) (
            member (codes "grant_id") (str g.grant_id) (
              member (codes "host_id") (str g.host_id) (
                member (codes "inode") (int g.inode) (
                  member (codes "issued_at") (str (c.isoformat g.issued_at)) (
                    member (codes "nonce") (str g.nonce) (
                      member (codes "path") (str g.path)
                        (member (codes "volume_id") (num g.volume_id) end))))))))))

  -- `FileGrant.canonical_bytes`
  unfoldable pub grant_bytes : FileGrant → Text
  grant_bytes g = c.codec.dumps (payload g)

  -- `GrantSigner.sign`
  unfoldable pub sign_grant : KeyPair → FileGrant → SignedFileGrant
  sign_grant private g = record {
    grant = g;
    key_id = private.key_id;
    algorithm = codes "ed25519";
    signature = c.b64encode (c.ed25519_sign private.key (grant_bytes g));
  }

  -- `GrantVerifier.verify_signature`
  unfoldable pub verify_grant_signature : KeyPair → SignedFileGrant → Bool
  verify_grant_signature trusted signed =
      if not (signed.algorithm == codes "ed25519") || not (signed.key_id == trusted.key_id)
      then false
      else on_decoded (c.b64decode signed.signature)
          (λ s. c.ed25519_verify trusted.key s (grant_bytes signed.grant))

abbrev consumed : FileGrant → Bool × Ledger → Outcome GrantError FileGrant × Ledger
consumed g (true, seen) = (ok g, seen)
consumed g (false, seen) = (raised replay, seen)

-- With the signature check of the trusted key, the agent's own host and the time.
unfoldable pub verify_grant :
    (SignedFileGrant → Bool)
    → Text
    → SignedFileGrant
    → ℕ
    → Ledger
    → Outcome GrantError FileGrant × Ledger
unfolding consume
verify_grant verify_signature expected_host_id signed now seen =
    if not (verify_signature signed)
    then (raised signature_failed, seen)
    else if leb signed.grant.expires_at now
    then (raised expired, seen)
    else if ltb now signed.grant.issued_at
    then (raised not_yet_valid, seen)
    else if not (signed.grant.host_id == expected_host_id)
    then (raised wrong_host, seen)
    else consumed signed.grant (consume signed.grant.nonce seen)
