-- ===== src/Auth/Sessions/History.antt =====
-- What auth/sessions.py answers after any history of the table.
use fathomline.Prelude.{
  ℕ, ◌+◌, ◌*◌, Bool, false, ◌||◌, Option, none, some, List, [], ◌∷◌, ◌++◌, length, if◌then◌else◌,
  ◌==◌, ℕ_eq, leb, ◌≡◌, refl, arith, ap, sym, ◌∙◌, subst, Bool-cases, inl, inr,
}
use fathomline.Prelude.Json.{Text, Text_eq}
use fathomline.Prelude.Effect.{Outcome, ok}
use fathomline.Auth.Sessions.{
  UserSession, Sessions, IntegrityError, second, has_hash, with_hash, is_set, when_live,
  new_session, create_session, lookup_session, revoke_session, mark_step_up,
}
use fathomline.Auth.Sessions.Finding.{renewed, with_hash-update, with_hash-append, with_hash-new}

-- What may happen to the table: a session is opened, with the token that is drawn, or the session
-- with an id is revoked or stamped.
pub data Step : Type 0 where
  open_session : Text → ℕ → ℕ → Step
  revoke : ℕ → Step
  step_up : ℕ → Step

abbrev pub revokes : ℕ → List (ℕ × Step) → Bool
revokes id [] = false
revokes id ((now, revoke i) ∷ steps) = id == i || revokes id steps
revokes id ((now, _) ∷ steps) = revokes id steps

-- The time of the last stamp.
abbrev pub stamp : ℕ → Option ℕ → List (ℕ × Step) → Option ℕ
stamp id at [] = at
stamp id at ((now, step_up i) ∷ steps) = stamp id (if id == i then some now else at) steps
stamp id at ((now, _) ∷ steps) = stamp id at steps

module _ (hash_token : Text → Text) where
  unfoldable pub take_step : ℕ → Step → Sessions → Sessions
  take_step now (open_session raw user_id ttl) rows =
      (create_session hash_token raw now user_id ttl rows).1
  take_step now (revoke id) rows = revoke_session now id rows
  take_step now (step_up id) rows = mark_step_up now id rows

  unfoldable pub take_steps : List (ℕ × Step) → Sessions → Sessions
  unfolding take_step
  take_steps [] rows = rows
  take_steps ((now, s) ∷ steps) rows = take_steps steps (take_step now s rows)

  -- The time of the last revocation.
  revocation : ℕ → Option ℕ → List (ℕ × Step) → Option ℕ
  revocation id at [] = at
  revocation id at ((now, revoke i) ∷ steps) =
      revocation id (if id == i then some now else at) steps
  revocation id at ((now, _) ∷ steps) = revocation id at steps

  is_set-revocation :
      (id : ℕ) (at : Option ℕ) (steps : List (ℕ × Step))
      → is_set (revocation id at steps) ≡ (is_set at || revokes id steps)
  unfolding revocation
  is_set-revocation id at [] = ground arith
  is_set-revocation id at ((now, revoke i) ∷ steps) = elim (Bool-cases (id == i)) [
    | inl e ↦ rw e (is_set-revocation id (some now) steps ∙ ground arith)
    | inr e ↦ rw e (is_set-revocation id at steps)
  ]
  is_set-revocation id at ((now, open_session raw u ttl) ∷ steps) = is_set-revocation id at steps
  is_set-revocation id at ((now, step_up i) ∷ steps) = is_set-revocation id at steps

  grown : UserSession → List (ℕ × Step) → UserSession
  grown r steps = record r {
    mfa_authenticated_at = stamp r.id r.mfa_authenticated_at steps;
    revoked_at = revocation r.id r.revoked_at steps;
  }

  abbrev stopped : ℕ → UserSession → UserSession
  stopped now r = record r { revoked_at = some now }

  abbrev stamped : ℕ → UserSession → UserSession
  stamped now r = record r { mfa_authenticated_at = some now }

  grown-nil : (r : UserSession) → r ≡ grown r []
  unfolding grown revocation
  grown-nil r = refl

  grown-revoke :
      (now i : ℕ) (r : UserSession) (steps : List (ℕ × Step))
      → grown (renewed (stopped now) i r) steps ≡ grown r ((now, revoke i) ∷ steps)
  unfolding grown renewed revocation
  grown-revoke now i r steps = elim (Bool-cases (r.id == i)) [
    | inl q ↦ rw q refl
    | inr q ↦ rw q refl
  ]

  grown-step_up :
      (now i : ℕ) (r : UserSession) (steps : List (ℕ × Step))
      → grown (renewed (stamped now) i r) steps ≡ grown r ((now, step_up i) ∷ steps)
  unfolding grown renewed revocation
  grown-step_up now i r steps = elim (Bool-cases (r.id == i)) [
    | inl q ↦ rw q refl
    | inr q ↦ rw q refl
  ]

  with_hash-opened :
      (now : ℕ) (raw : Text) (user ttl : ℕ) (h : Text) (rows : Sessions) (r : UserSession)
      → with_hash h rows ≡ some r
      → with_hash h (create_session hash_token raw now user ttl rows).1 ≡ some r
  unfolding create_session
  with_hash-opened now raw user ttl h rows r e =
      elim (Bool-cases (has_hash (hash_token raw) rows)) [
        | inl q ↦ rw q e
        | inr q ↦ rw q (with_hash-append h rows _ r e)
      ]

  with_hash-take_steps :
      (steps : List (ℕ × Step)) (h : Text) (rows : Sessions) (r : UserSession)
      → with_hash h rows ≡ some r
      → with_hash h (take_steps steps rows) ≡ some (grown r steps)
  unfolding take_steps revoke_session mark_step_up grown revocation
  with_hash-take_steps [] h rows r e = e ∙ ap some (grown-nil r)
  with_hash-take_steps ((now, open_session raw user ttl) ∷ steps) h rows r e =
      with_hash-take_steps steps h _ r (with_hash-opened now raw user ttl h rows r e)
  with_hash-take_steps ((now, revoke i) ∷ steps) h rows r e =
      with_hash-take_steps steps h _ _ (with_hash-update (stopped now) i h rows r (λ x. refl) e)
      ∙ ap some (grown-revoke now i r steps)
  with_hash-take_steps ((now, step_up i) ∷ steps) h rows r e =
      with_hash-take_steps steps h _ _ (with_hash-update (stamped now) i h rows r (λ x. refl) e)
      ∙ ap some (grown-step_up now i r steps)

  revocation_none :
      (id : ℕ) (at : Option ℕ) (steps : List (ℕ × Step))
      → revokes id steps ≡ false
      → revocation id at steps ≡ at
  unfolding revocation
  revocation_none id at [] h = refl
  revocation_none id at ((now, revoke i) ∷ steps) h =
      let other : (id == i) ≡ false = ground (arith, h) in
      rw other (revocation_none id at steps (ground (arith, h)))
  revocation_none id at ((now, open_session raw u ttl) ∷ steps) h = revocation_none id at steps h
  revocation_none id at ((now, step_up i) ∷ steps) h = revocation_none id at steps h

  when_live-grown :
      (rows : Sessions) (user ttl : ℕ) (raw : Text) (now : ℕ) (steps : List (ℕ × Step)) (later : ℕ)
      → let r = new_session hash_token rows user ttl raw now in
        when_live later (some (grown r steps)) ≡ (
          if revokes r.id steps || leb (now + ttl * second) later
          then none
          else some (record r { mfa_authenticated_at = stamp r.id none steps }))
  unfolding grown
  when_live-grown rows user ttl raw now steps later =
      let id = length rows + 1 in
      elim (Bool-cases (revokes id steps)) [
        | inl q ↦ rw (is_set-revocation id none steps, q) refl
        | inr q ↦ rw (revocation_none id none steps q, q) refl
      ]

  created :
      (raw : Text) (now user ttl : ℕ) (rows rows' : Sessions) (row : UserSession) (token : Text)
      → create_session hash_token raw now user ttl rows ≡ (ok (row, token), rows')
      → (row ≡ new_session hash_token rows user ttl raw now)
        × (token ≡ raw)
        × (with_hash (hash_token raw) rows' ≡ some row)
  unfolding create_session
  created raw now user ttl rows rows' row token e =
      elim (Bool-cases (has_hash (hash_token raw) rows)) [
        | inl q ↦ absurd (ground (arith, q, e))
        | inr q ↦
            let r = new_session hash_token rows user ttl raw now in
            let same : ◌≡◌ {A = Outcome IntegrityError (UserSession × Text) × Sessions}
                (ok (r, raw), rows ++ r ∷ []) (ok (row, token), rows') =
              ground (arith, q, e) in
            let is_row : r ≡ row = ground (arith, same) in
            (
              sym is_row,
              ground (arith, same),
              subst (λ rs. with_hash (hash_token raw) rs ≡ some row) (ground (arith, same))
                  (with_hash-new (hash_token raw) rows r q refl ∙ ap some is_row),
            )
      ]

  -- A session that was opened is found by the token that was returned after any history of the
  -- table, while its time is not over and it has not been revoked, and then with the time of the
  -- last step-up of that session and otherwise as it was opened; once it has been revoked, or its
  -- time is over, it is never found again.
  pub lookup_session-take_steps :
      (raw : Text) (now user ttl : ℕ) (rows rows' : Sessions) (row : UserSession) (token : Text)
      (steps : List (ℕ × Step)) (later : ℕ)
      → create_session hash_token raw now user ttl rows ≡ (ok (row, token), rows')
      → lookup_session hash_token later token (take_steps steps rows') ≡ (
          if revokes row.id steps || leb (now + ttl * second) later
          then none
          else some (record row { mfa_authenticated_at = stamp row.id none steps }))
  unfolding lookup_session
  lookup_session-take_steps raw now user ttl rows rows' row token steps later e =
      let (is_new, tok, found) = created raw now user ttl rows rows' row token e in
      let after = with_hash-take_steps steps (hash_token raw) rows' row found in
      let r = new_session hash_token rows user ttl raw now in
      rw (tok, after)
        (subst
          (λ x. when_live later (some (grown x steps)) ≡ (
            if revokes x.id steps || leb (now + ttl * second) later
            then none
            else some (record x { mfa_authenticated_at = stamp x.id none steps })))
          (sym is_new) (when_live-grown rows user ttl raw now steps later))
