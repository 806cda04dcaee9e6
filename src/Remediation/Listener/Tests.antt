-- ===== src/Remediation/Listener/Tests.antt =====
-- Instances for the modules of the listener.
use fathomline.Prelude.{
  true, false, none, some, List, [], ◌∷◌, ◌≡◌, ◌⊎◌, refl, arith, ◌==◌, list_beq,
}
use fathomline.Prelude.Json.{Text_eq, codes}
use fathomline.Prelude.Effect.{raised}
use fathomline.Remediation.Os.Memory.{memory}
use fathomline.Remediation.Job.{action, ed25519, SignedJob}
use fathomline.Remediation.Signing.{VerifyError}
use fathomline.Remediation.Signing.Replay.{Accepts}
use fathomline.Remediation.Listener.{Agent, Listener, Arrival, handle, unverified}
use fathomline.Remediation.Listener.Safety.{Authorised, handle-Authorised}
use fathomline.Remediation.Listener.Once.{handle_all, handle-handle_all}
use fathomline.Remediation.Sample.{good_item, job_with, surroundings, world}

abbrev signed : SignedJob
signed = record {
  job = action (job_with (good_item ∷ []));
  key_id = codes "k1";
  algorithm = ed25519;
  signature = codes "s";
}

abbrev forged : SignedJob
forged = record signed { signature = codes "x" }

abbrev listener : Listener memory
listener = record {
  dispatcher = some (record { env = surroundings; hasher = none });
  verify_signature = λ j. j.signature == codes "s";
  host_id = codes "h";
  scan_dispatcher = none;
}

abbrev agent : Agent memory
agent = record { ledger = []; world = world; scans = [] }

handle-Authorised_example :
    let s' = (handle memory listener signed false 15 agent).1 in
    (s'.world ≡ world) ⊎ Authorised memory listener signed 15 agent s'
handle-Authorised_example = handle-Authorised memory listener signed false 15 agent

is_accepted : Accepts (λ j. j.signature == codes "s") (codes "h") signed 15 []
unfolding list_beq
is_accepted = record {
  genuine = refl;
  begun = omega arith;
  not_over = omega arith;
  addressed = refl;
  fresh = refl;
}

abbrev between : List Arrival
between = record { signed = forged; confirm_blast = true; now = 16 } ∷ []

handle-handle_all_example :
    let s' = handle_all memory listener between (handle memory listener signed false 15 agent).1 in
    (e : VerifyError) × (handle memory listener signed true 17 s' ≡ (raised (unverified e), s'))
handle-handle_all_example =
    handle-handle_all memory listener signed false 15 agent between true 17 is_accepted
