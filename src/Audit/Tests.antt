-- ===== src/Audit/Tests.antt =====
-- Runs and instances for the modules of Audit.
use fathomline.Prelude.{Bool, true, false, List, [], ◌∷◌, ◌++◌, ◌≡◌, refl, list_beq}
use fathomline.Prelude.Json.{codes, null}
use fathomline.Audit.{
  rechain, new_record, record_payload, compute_row_hash, canonical, AuditRecord, AuditChain,
  genesis_hash, new_chain, verify_chain,
}
use fathomline.Audit.Building.{Request, log, take_over, perform_all, IsLinked, built-IsLinked}
use fathomline.Audit.Sample.{write, shift, sample_codec, sample-IsSound}
use fathomline.Audit.Tamper.{verified_logs_equal}

abbrev takes_all : List AuditRecord → AuditRecord → Bool
takes_all l r = true

-- A record as an actor would send it: linked to another chain.
abbrev foreign : AuditRecord
foreign = record {
  ts = codes "t0";
  actor = codes "strata-actor";
  action = codes "quarantine";
  target = codes "/a";
  before_state = null;
  result = codes "quarantined";
  prev_hash = codes "x";
  row_hash = codes "y";
}

abbrev requests : List Request
requests =
    log (codes "t1") (codes "ada") (codes "scan") (codes "/") null (codes "ok")
    ∷ take_over foreign
    ∷ []

abbrev built : AuditChain
built = perform_all sample_codec takes_all new_chain requests

built-IsLinked_example : IsLinked sample_codec built
built-IsLinked_example = built-IsLinked sample_codec takes_all requests

verified_logs_equal_example : built.emitted ≡ built.emitted
verified_logs_equal_example =
    verified_logs_equal sample_codec sample-IsSound built.emitted built.emitted
      (built-IsLinked sample_codec takes_all requests).verifies
      (built-IsLinked sample_codec takes_all requests).verifies refl

abbrev entry : AuditRecord
entry =
    new_record sample_codec genesis_hash (codes "t1") (codes "ada") (codes "scan") (codes "/") null
      (codes "ok")

abbrev next_entry : AuditRecord
next_entry = rechain sample_codec foreign entry.row_hash

two_verify : verify_chain sample_codec ((entry ∷ []) ++ (next_entry ∷ [])) genesis_hash ≡ true
unfolding verify_chain rechain record_payload new_record compute_row_hash canonical genesis_hash
    write shift list_beq
two_verify = refl

-- A field altered after the fact is found.
altered_fails :
    verify_chain sample_codec (record entry { actor = codes "eve" } ∷ next_entry ∷ []) genesis_hash
    ≡ false
unfolding verify_chain rechain record_payload new_record compute_row_hash canonical genesis_hash
    write shift list_beq
altered_fails = refl
