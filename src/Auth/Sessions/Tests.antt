-- ===== src/Auth/Sessions/Tests.antt =====
-- A run of the sessions.
use fathomline.Prelude.{ℕ, ◌||◌, none, some, List, [], ◌∷◌, ◌≡◌, refl, leb, if◌then◌else◌}
use fathomline.Prelude.Json.{Text, Text_eq, codes}
use fathomline.Auth.Sessions.{UserSession, new_session, create_session, lookup_session}
use fathomline.Auth.Sessions.History.{
  Step, open_session, revoke, step_up, revokes, stamp, take_steps, lookup_session-take_steps,
}

abbrev as_is : Text → Text
as_is t = t

abbrev opened : UserSession
opened = new_session as_is [] 7 60 (codes "tok") 5

-- Another session is opened and revoked, and ours is stamped.
abbrev steps : List (ℕ × Step)
steps = (6, open_session (codes "other") 8 60) ∷ (7, step_up 1) ∷ (8, revoke 2) ∷ []

lookup_session-take_steps_example :
    lookup_session as_is 9 (codes "tok") (take_steps as_is steps (opened ∷ [])) ≡ (
      if revokes 1 steps || leb 60000005 9
      then none
      else some (record opened { mfa_authenticated_at = stamp 1 none steps }))
unfolding create_session
lookup_session-take_steps_example =
    lookup_session-take_steps as_is (codes "tok") 5 7 60 [] (opened ∷ []) opened (codes "tok") steps
      9 refl
