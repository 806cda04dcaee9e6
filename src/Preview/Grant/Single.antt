-- ===== src/Preview/Grant/Single.antt =====
-- That a grant of preview/grant.py serves one file once.
use fathomline.Prelude.{
  ℕ, ◌≤◌, ◌<◌, true, false, ◌∷◌, ◌≡◌, arith, ◌==◌, ==_refl, member, member-head,
}
use fathomline.Prelude.Json.{Text, Text_eq, codes}
use fathomline.Prelude.Effect.{ok, raised}
use fathomline.Remediation.Nonce.{Ledger}
use fathomline.Remediation.Signing.{Crypto, KeyPair}
use fathomline.Remediation.Signing.Verifying.{IsDocumented}
use fathomline.Preview.Grant.{
  FileGrant, replay, grant_bytes, sign_grant, verify_grant_signature, verify_grant,
}

module _ (c : Crypto) (pairs : Text → Text → Type 0) (doc : IsDocumented c pairs) where
  verify_grant_signature-sign_grant :
      (private public : KeyPair) (g : FileGrant)
      → pairs private.key public.key
      → private.key_id ≡ public.key_id
      → verify_grant_signature c public (sign_grant c private g) ≡ true
  unfolding verify_grant_signature sign_grant
  verify_grant_signature-sign_grant private public g pair same =
      let named : ((sign_grant c private g).algorithm == codes "ed25519") ≡ true =
        ==_refl (codes "ed25519") in
      ground (
        arith,
        named,
        doc.b64_round_trip (c.ed25519_sign private.key (grant_bytes c g)),
        doc.signature_verifies private.key public.key (grant_bytes c g) pair,
        (Text_eq.beq_iff private.key_id public.key_id).1 same,
      )

  -- A grant that the core signs is served once: with the matching key of the same id, on its host,
  -- within its window and with a fresh nonce the agent returns the grant as it was signed and spends
  -- the nonce; when the same signed grant is presented again, at any time within the window, it
  -- is refused as a replay and the ledger stays as it is.
  pub verify_grant-sign_grant :
      (private public : KeyPair) (g : FileGrant) (now later : ℕ) (seen : Ledger)
      → pairs private.key public.key
      → private.key_id ≡ public.key_id
      → g.issued_at ≤ now
      → now ≤ later
      → later < g.expires_at
      → member g.nonce seen ≡ false
      → let check = verify_grant_signature c public in
        let signed = sign_grant c private g in
        (verify_grant check g.host_id signed now seen ≡ (ok g, g.nonce ∷ seen))
        × (verify_grant check g.host_id signed later (g.nonce ∷ seen)
            ≡ (raised replay, g.nonce ∷ seen))
  unfolding verify_grant
  verify_grant-sign_grant private public g now later seen pair same a b d fresh =
      let genuine = verify_grant_signature-sign_grant private public g pair same in
      (
        unfold sign_grant in ground (arith, genuine, a, b, d, fresh, ==_refl g.host_id),
        unfold sign_grant in
            ground (arith, genuine, a, b, d, member-head g.nonce seen, ==_refl g.host_id),
      )
