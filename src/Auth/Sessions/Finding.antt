-- ===== src/Auth/Sessions/Finding.antt =====
-- How the rows of auth/sessions.py are found by a token after an UPDATE or an INSERT.
use fathomline.Prelude.{
  ℕ, false, some, [], ◌∷◌, ◌++◌, if◌then◌else◌, ◌==◌, ==_refl, ℕ_eq, ◌≡◌, refl, arith, Bool-cases,
  inl, inr,
}
use fathomline.Prelude.Json.{Text, Text_eq}
use fathomline.Auth.Sessions.{UserSession, Sessions, has_hash, with_hash, update}

unfoldable pub renewed : (UserSession → UserSession) → ℕ → UserSession → UserSession
renewed f id r = if r.id == id then f r else r

pub with_hash-update :
    (f : UserSession → UserSession) (id : ℕ) (h : Text) (rows : Sessions) (r : UserSession)
    → ((x : UserSession) → (f x).token_hash ≡ x.token_hash)
    → with_hash h rows ≡ some r
    → with_hash h (update f id rows) ≡ some (renewed f id r)
unfolding renewed
with_hash-update f id h [] r same e = cc
with_hash-update f id h (x ∷ rows) r same e = elim (Bool-cases (x.token_hash == h)) [
  | inl q ↦
      let is_r : x ≡ r = ground (arith, q, e) in
      elim (Bool-cases (x.id == id)) [
        | inl k ↦ rw (← is_r) (rw (k, same x, q) refl)
        | inr k ↦ rw (← is_r) (rw (k, q) refl)
      ]
  | inr q ↦
      let later = with_hash-update f id h rows r same (ground (arith, q, e)) in
      elim (Bool-cases (x.id == id)) [ inl k ↦ rw (k, same x, q) later | inr k ↦ rw (k, q) later ]
]

pub with_hash-append :
    (h : Text) (rows more : Sessions) (r : UserSession)
    → with_hash h rows ≡ some r
    → with_hash h (rows ++ more) ≡ some r
with_hash-append h [] more r e = cc
with_hash-append h (x ∷ rows) more r e = elim (Bool-cases (x.token_hash == h)) [
  | inl q ↦ rw q (ground (arith, q, e))
  | inr q ↦ rw q (with_hash-append h rows more r (ground (arith, q, e)))
]

pub with_hash-new :
    (h : Text) (rows : Sessions) (r : UserSession)
    → has_hash h rows ≡ false
    → r.token_hash ≡ h
    → with_hash h (rows ++ r ∷ []) ≡ some r
with_hash-new h [] r free e = rw (e, ==_refl h) refl
with_hash-new h (x ∷ rows) r free e =
    let other : (x.token_hash == h) ≡ false = ground (arith, free) in
    rw other (with_hash-new h rows r (ground (arith, free)) e)
