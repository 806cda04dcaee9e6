-- ===== src/Remediation/Job/Sealing.antt =====
-- What the canonical bytes of core/remediation/job.py bind.
use fathomline.Prelude.{ℕ, Option, List, [], ◌∷◌, map, ◌≡◌, refl, arith}
use fathomline.Prelude.Json.{Text, Json, opt_str, items_of}
use fathomline.Audit.{Codec}
use fathomline.Remediation.Plan.{PlanAction, action_value, text, str_of, PlanItem}
use fathomline.Remediation.Job.{
  JobMode, mode_text, ScanMode, scan_mode_text, DispatchJob, action, scan, item_json, action_json,
  scan_json, canonical_bytes,
}

-- What the bytes leave open is only whether an entry id was a number or its digits.
abbrev pub printed_item : PlanItem → PlanItem
printed_item i = record i { entry_id = text (str_of i.entry_id) }

abbrev pub printed_job : DispatchJob → DispatchJob
printed_job (action j) = action (record j { items = map printed_item j.items })
printed_job (scan j) = scan j

action_value_injective : (a b : PlanAction) → action_value a ≡ action_value b → a ≡ b
action_value_injective a b e = ground arith

mode_text_injective : (a b : JobMode) → mode_text a ≡ mode_text b → a ≡ b
mode_text_injective a b e = ground arith

scan_mode_text_injective : (a b : ScanMode) → scan_mode_text a ≡ scan_mode_text b → a ≡ b
scan_mode_text_injective a b e = ground arith

opt_str_injective : (a b : Option Text) → opt_str a ≡ opt_str b → a ≡ b
opt_str_injective a b e = ground arith

same_item : (i j : PlanItem) → item_json i ≡ item_json j → printed_item i ≡ printed_item j
same_item i j e = ground (
  arith,
  action_value_injective i.action j.action (ground arith),
  opt_str_injective i.dest_rel j.dest_rel (ground arith),
  opt_str_injective i.prior_hash j.prior_hash (ground arith),
)

same_items :
    (is js : List PlanItem)
    → items_of (map item_json is) ≡ items_of (map item_json js)
    → map printed_item is ≡ map printed_item js
same_items [] [] e = refl
same_items (i ∷ is) (j ∷ js) e =
    ground (arith, same_item i j (ground arith), same_items is js (ground arith))
same_items [] (j ∷ js) e = cc
same_items (i ∷ is) [] e = cc

module _ (k : Codec) (isoformat : ℕ → Text)
    (dumps_injective : (a b : Json) → k.dumps a ≡ k.dumps b → a ≡ b)
    (isoformat_injective : (a b : ℕ) → isoformat a ≡ isoformat b → a ≡ b) where
  -- With a JSON writer and a date format that are injective, two jobs with the same signed bytes
  -- are the same job, field for field and item for item in their order, up to whether an entry id
  -- was a number or the text of its digits; so no remediation job has the bytes of a scan job.
  pub canonical_bytes_injective :
      (i j : DispatchJob)
      → canonical_bytes k isoformat i ≡ canonical_bytes k isoformat j
      → printed_job i ≡ printed_job j
  unfolding canonical_bytes
  canonical_bytes_injective (action i) (action j) e =
      let same = dumps_injective (action_json k isoformat i) (action_json k isoformat j) e in
      ground (
        arith,
        isoformat_injective i.expires_at j.expires_at (ground arith),
        isoformat_injective i.issued_at j.issued_at (ground arith),
        same_items i.items j.items (ground arith),
        mode_text_injective i.mode j.mode (ground arith),
        opt_str_injective i.move_root j.move_root (ground arith),
      )
  canonical_bytes_injective (scan i) (scan j) e =
      let same = dumps_injective (scan_json k isoformat i) (scan_json k isoformat j) e in
      ground (
        arith,
        isoformat_injective i.expires_at j.expires_at (ground arith),
        isoformat_injective i.issued_at j.issued_at (ground arith),
        scan_mode_text_injective i.mode j.mode (ground arith),
      )
  canonical_bytes_injective (action i) (scan j) e =
      let same = dumps_injective (action_json k isoformat i) (scan_json k isoformat j) e in
      ground arith
  canonical_bytes_injective (scan i) (action j) e =
      let same = dumps_injective (scan_json k isoformat i) (action_json k isoformat j) e in
      ground arith
