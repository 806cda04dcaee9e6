-- ===== src/Preview/Grant/Tests.antt =====
-- A grant for the tests of preview/grant.py.
use fathomline.Prelude.{some, [], ◌∷◌, ◌≡◌, refl, arith}
use fathomline.Prelude.Json.{Text_eq, codes, negsuc}
use fathomline.Prelude.Effect.{ok, raised}
use fathomline.Remediation.Signing.Tests.{crypto, SameKey, crypto-IsDocumented, key}
use fathomline.Preview.Grant.{FileGrant, replay, sign_grant, verify_grant_signature, verify_grant}
use fathomline.Preview.Grant.Single.{verify_grant-sign_grant}

-- Its inode is -3 as a signed number.
abbrev photo : FileGrant
photo = record {
  grant_id = codes "g1";
  entry_id = 4;
  host_id = codes "h";
  volume_id = 2;
  inode = negsuc 2;
  path = codes "/srv/a.jpg";
  content_hash = some (codes "c0");
  nonce = codes "n";
  issued_at = 10;
  expires_at = 20;
}

verify_grant-sign_grant_example :
    let check = verify_grant_signature crypto key in
    let signed = sign_grant crypto key photo in
    (verify_grant check photo.host_id signed 12 [] ≡ (ok photo, photo.nonce ∷ []))
    × (verify_grant check photo.host_id signed 15 (photo.nonce ∷ [])
        ≡ (raised replay, photo.nonce ∷ []))
verify_grant-sign_grant_example =
    verify_grant-sign_grant crypto SameKey crypto-IsDocumented key key photo 12 15 [] refl refl
      (omega arith) (omega arith) (omega arith) refl
