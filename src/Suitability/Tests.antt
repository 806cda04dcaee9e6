-- ===== src/Suitability/Tests.antt =====
-- Instances for the modules of Suitability.
use fathomline.Prelude.{ℕ, ◌*◌, true, false, some, [], arith}
use fathomline.Prelude.Json.{Text}
use fathomline.Suitability.{gib, assess}
use fathomline.Suitability.Monotone.{known_facts, NoWorse, assess-NoWorse}

abbrev no_text : ℕ → Text
no_text n = []

-- From 4 GB to 32 GB of RAM, and from no GPU to one with 16 GB.
assess-NoWorse_example :
    NoWorse
      (assess no_text (known_facts (4 * gib) 0) (some 1000) false).options
      (assess no_text (known_facts (32 * gib) (16 * gib)) (some 900) true).options
assess-NoWorse_example =
    assess-NoWorse no_text (4 * gib) (32 * gib) 0 (16 * gib) (some 1000) (some 900) false true
      (omega arith) (omega arith) (omega arith)
