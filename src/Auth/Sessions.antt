-- ===== src/Auth/Sessions.antt =====
-- auth/sessions.py and auth/mfa.py: the sessions of the table, and the freshness of the second factor
-- of one. Times are microseconds in UTC; the hash, the tokens that are drawn, the clock and the TOTP
-- check are parameters.
pub mod History
pub mod Finding
mod Tests
use fathomline.Prelude.{
  ℕ, zero, suc, ◌+◌, ◌*◌, Bool, true, false, not, ◌&&◌, ◌||◌, Option, none, some, List, [], ◌∷◌,
  ◌++◌, any, all, length, if◌then◌else◌, ◌==◌, ℕ_eq, leb,
}
use fathomline.Prelude.Json.{Text, Text_eq, codes}
use fathomline.Prelude.Decimal.{decimal, decimal_text}
use fathomline.Prelude.Effect.{Outcome, ok, raised}

pub record UserSession : Type 0 where
  pub id : ℕ
  pub user_id : ℕ
  pub token_hash : Text
  pub expires_at : ℕ
  pub mfa_authenticated_at : Option ℕ
  pub revoked_at : Option ℕ

-- The rows, whose ids count up from one. `token_hash` is unique.
abbrev pub Sessions : Type 0
Sessions = List UserSession

pub data IntegrityError : Type 0 where
  integrity_error : IntegrityError

abbrev pub second : ℕ
second = 1000000

abbrev pub has_hash : Text → Sessions → Bool
has_hash h rows = any (λ r. r.token_hash == h) rows

-- `scalar_one_or_none` over a unique column.
abbrev pub with_hash : Text → Sessions → Option UserSession
with_hash h [] = none
with_hash h (r ∷ rows) = if r.token_hash == h then some r else with_hash h rows

abbrev is_set : Option ℕ → Bool
is_set none = false
is_set (some t) = true

abbrev when_live : ℕ → Option UserSession → Option UserSession
when_live now none = none
when_live now (some row) =
    if is_set row.revoked_at then none else if leb row.expires_at now then none else some row

-- An UPDATE of the row with this id.
abbrev pub update : (UserSession → UserSession) → ℕ → Sessions → Sessions
update f id [] = []
update f id (r ∷ rows) = (if r.id == id then f r else r) ∷ update f id rows

module _ (hash_token : Text → Text) where
  abbrev pub new_session : Sessions → ℕ → ℕ → Text → ℕ → UserSession
  new_session rows user_id ttl_seconds raw now = record {
    id = length rows + 1;
    user_id = user_id;
    token_hash = hash_token raw;
    expires_at = now + ttl_seconds * second;
    mfa_authenticated_at = none;
    revoked_at = none;
  }

  -- The token `raw` is the one that `mint_token` draws.
  unfoldable pub create_session :
      Text → ℕ → ℕ → ℕ → Sessions → Outcome IntegrityError (UserSession × Text) × Sessions
  create_session raw now user_id ttl_seconds rows =
      let row = new_session rows user_id ttl_seconds raw now in
      if has_hash (hash_token raw) rows
      then (raised integrity_error, rows)
      else (ok (row, raw), rows ++ row ∷ [])

  unfoldable pub lookup_session : ℕ → Text → Sessions → Option UserSession
  lookup_session now raw_token rows = when_live now (with_hash (hash_token raw_token) rows)

unfoldable pub revoke_session : ℕ → ℕ → Sessions → Sessions
revoke_session now id rows = update (λ r. record r { revoked_at = some now }) id rows

unfoldable pub mark_step_up : ℕ → ℕ → Sessions → Sessions
mark_step_up now id rows = update (λ r. record r { mfa_authenticated_at = some now }) id rows

-- `current - stamped <= timedelta(...)`: a stamp that lies ahead of the clock is fresh.
unfoldable pub is_step_up_fresh : Option ℕ → ℕ → ℕ → Bool
is_step_up_fresh none freshness_seconds current = false
is_step_up_fresh (some stamped) freshness_seconds current =
    leb current (stamped + freshness_seconds * second)

abbrev default_freshness_seconds : ℕ
default_freshness_seconds = 300

unfoldable pub secret_ref_for : ℕ → Text
unfolding decimal
secret_ref_for enrollment_id = codes "mfa:" ++ decimal_text enrollment_id

unfoldable pub resolve_enrollment_secret : Text → (Text → Option Text) → Text
resolve_enrollment_secret secret_ref resolver = elim (resolver secret_ref) [
  | none ↦ secret_ref
  | some secret ↦ secret
]

-- `str.isdigit` of a code, and `pyotp.TOTP(secret).verify`, are parameters.
abbrev no_code : Text → Bool
no_code [] = true
no_code (b ∷ code) = false

unfoldable pub verify_totp : (Text → Bool) → (Text → Text → ℕ → Bool) → Text → Text → ℕ → Bool
verify_totp isdigit totp secret code valid_window =
    if no_code code || not (isdigit code) then false else totp secret code valid_window
