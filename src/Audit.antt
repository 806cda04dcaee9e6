-- ===== src/Audit.antt =====
-- core/audit.py: the hash-chained, append-only audit log. `json.dumps` with the options of
-- `_canonical` and blake3 are parameters; texts are their UTF-8 bytes.
pub mod Building
pub mod Tamper
pub mod Sample
pub mod Store
mod Tests
use fathomline.Prelude.{
  ℕ, zero, suc, Bool, true, false, Option, none, some, List, [], ◌∷◌, ◌++◌, if◌then◌else◌, Eq, ◌==◌,
  ℕ_eq, not,
}
use fathomline.Prelude.Json.{Text, Text_eq, codes, Json, str, obj, end, member, num, bool}

abbrev zeros : ℕ → Text
zeros zero = []
zeros (suc n) = b'0' ∷ zeros n

-- `"0" * 64`
unfoldable pub genesis_hash : Text
genesis_hash = zeros 64

pub record AuditRecord : Type 0 where
  pub ts : Text
  pub actor : Text
  pub action : Text
  pub target : Text
  pub before_state : Json
  pub result : Text
  pub prev_hash : Text
  pub row_hash : Text

-- The JSON text writer and the hash that the log is made with.
pub record Codec : Type 0 where
  pub dumps : Json → Text
  pub blake3 : Text → Text

-- The builder: what its sink has taken so far, and the hash of the last record.
pub record AuditChain : Type 0 where
  pub emitted : List AuditRecord
  pub head : Text

unfoldable pub new_chain : AuditChain
new_chain = record { emitted = []; head = genesis_hash }

module _ (k : Codec) where
  unfoldable pub canonical : Text → Text → Text → Text → Json → Text → Text
  canonical ts actor action target before_state result = k.dumps (
      obj (
        member (codes "action") (str action) (
          member (codes "actor") (str actor) (
            member (codes "before_state") before_state (
              member (codes "result") (str result)
                (member (codes "target") (str target) (member (codes "ts") (str ts) end)))))))

  unfoldable pub compute_row_hash : Text → Text → Text
  compute_row_hash prev_hash payload = k.blake3 (prev_hash ++ (0 ∷ payload))

  unfoldable pub record_payload : AuditRecord → Text
  unfolding canonical
  record_payload r = canonical r.ts r.actor r.action r.target r.before_state r.result

  unfoldable pub rechain : AuditRecord → Text → AuditRecord
  rechain r prev_hash = record r {
    prev_hash = prev_hash;
    row_hash = compute_row_hash prev_hash (record_payload r);
  }

  unfoldable pub new_record : Text → Text → Text → Text → Text → Json → Text → AuditRecord
  new_record prev_hash ts actor action target before_state result = record {
    ts = ts;
    actor = actor;
    action = action;
    target = target;
    before_state = before_state;
    result = result;
    prev_hash = prev_hash;
    row_hash = compute_row_hash prev_hash (canonical ts actor action target before_state result);
  }

  -- The sink takes the record or raises; when it raises, `head` is not moved and `none` says so.
  module _ (sink : List AuditRecord → AuditRecord → Bool) where
    unfoldable pub emit : AuditChain → AuditRecord → Option (AuditChain × AuditRecord)
    emit c r =
        if sink c.emitted r
        then some (record { emitted = c.emitted ++ r ∷ []; head = r.row_hash }, r)
        else none

    unfoldable pub append :
        AuditChain → Text → Text → Text → Text → Json → Text → Option (AuditChain × AuditRecord)
    unfolding emit new_record
    append c now actor action target before_state result =
        emit c (new_record c.head now actor action target before_state result)

    unfoldable pub splice : AuditChain → AuditRecord → Option (AuditChain × AuditRecord)
    unfolding emit
    splice c r = emit c (rechain r c.head)

    unfoldable pub append_preview_access :
        AuditChain
        → Text
        → Text
        → Text
        → Text
        → Text
        → Text
        → Bool
        → Option (AuditChain × AuditRecord)
    unfolding append
    append_preview_access c now actor role entry_id preview_type sandbox_job_id cache_hit =
        append c now actor (codes "preview.access") entry_id
          (obj (
            member (codes "cache_hit") (bool cache_hit) (
              member (codes "role") (str role) (
                member (codes "sandbox_job_id") (str sandbox_job_id)
                  (member (codes "type") (str preview_type) end)))))
          (codes "served")

  -- The loop of `verify_chain` over `prev`.
  pub verify_from : Text → List AuditRecord → Bool
  verify_from prev [] = true
  verify_from prev (r ∷ rest) =
      if not (r.prev_hash == prev)
      then false
      else if not (compute_row_hash prev (record_payload r) == r.row_hash)
      then false
      else verify_from r.row_hash rest

  unfoldable pub verify_chain : List AuditRecord → Text → Bool
  unfolding verify_from
  verify_chain records genesis = verify_from genesis records
