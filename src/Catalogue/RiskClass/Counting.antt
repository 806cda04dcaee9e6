-- ===== src/Catalogue/RiskClass/Counting.antt =====
-- What the counts of core/riskclass.py say of a list of paths, and what raises a class.
use fathomline.Prelude.{
  ℕ, ◌+◌, true, none, List, [], ◌∷◌, ◌++◌, any-append, keep, length, member, ◌≡◌, refl, arith,
}
use fathomline.Prelude.Json.{Text, Text_eq}
use fathomline.Catalogue.RiskClass.{
  RiskClass, os, services, config, user, same_class, Letters, classify_path, classify_components,
  Counts, one_more, count_paths, classify_paths, strong_os,
}

module _ (letters : Letters) where
  -- How many of the paths are of a class.
  abbrev pub number_of : RiskClass → List Text → ℕ
  number_of c paths = length (keep (λ p. same_class (classify_path letters p none) c) paths)

  pub record Counted (c c' : Counts) (paths : List Text) : Type 0 where
    pub os_counted : c'.of_os ≡ c.of_os + number_of os paths
    pub services_counted : c'.of_services ≡ c.of_services + number_of services paths
    pub config_counted : c'.of_config ≡ c.of_config + number_of config paths
    pub user_counted : c'.of_user ≡ c.of_user + number_of user paths
    pub total :
        c'.of_os + c'.of_services + c'.of_config + c'.of_user
        ≡ c.of_os + c.of_services + c.of_config + c.of_user + length paths

  one_path-Counted :
      (k : RiskClass) (p : Text) (c c' : Counts) (paths : List Text)
      → classify_path letters p none ≡ k
      → Counted (one_more k c) c' paths
      → Counted c c' (p ∷ paths)
  one_path-Counted os p c c' paths e r = record {
    os_counted = rw e (omega (arith, r.os_counted));
    services_counted = rw e (omega (arith, r.services_counted));
    config_counted = rw e (omega (arith, r.config_counted));
    user_counted = rw e (omega (arith, r.user_counted));
    total = omega (arith, r.total);
  }
  one_path-Counted services p c c' paths e r = record {
    os_counted = rw e (omega (arith, r.os_counted));
    services_counted = rw e (omega (arith, r.services_counted));
    config_counted = rw e (omega (arith, r.config_counted));
    user_counted = rw e (omega (arith, r.user_counted));
    total = omega (arith, r.total);
  }
  one_path-Counted config p c c' paths e r = record {
    os_counted = rw e (omega (arith, r.os_counted));
    services_counted = rw e (omega (arith, r.services_counted));
    config_counted = rw e (omega (arith, r.config_counted));
    user_counted = rw e (omega (arith, r.user_counted));
    total = omega (arith, r.total);
  }
  one_path-Counted user p c c' paths e r = record {
    os_counted = rw e (omega (arith, r.os_counted));
    services_counted = rw e (omega (arith, r.services_counted));
    config_counted = rw e (omega (arith, r.config_counted));
    user_counted = rw e (omega (arith, r.user_counted));
    total = omega (arith, r.total);
  }

  count_paths-Counted :
      (paths : List Text) (c : Counts) → Counted c (count_paths letters paths c) paths
  unfolding count_paths
  count_paths-Counted [] c = record {
    os_counted = omega arith;
    services_counted = omega arith;
    config_counted = omega arith;
    user_counted = omega arith;
    total = omega arith;
  }
  count_paths-Counted (p ∷ paths) c =
      one_path-Counted (classify_path letters p none) p c _ paths refl
        (count_paths-Counted paths (one_more (classify_path letters p none) c))

  -- The counts of a list of paths are, for each class, the number of the paths that are classified
  -- so, and together the number of paths.
  pub classify_paths-Counted :
      (paths : List Text)
      → Counted
          (record { of_os = 0; of_services = 0; of_config = 0; of_user = 0 })
          (classify_paths letters paths)
          paths
  unfolding classify_paths
  classify_paths-Counted paths = count_paths-Counted paths _

  -- A file beneath a directory with a strong marker is classified as one of the operating system,
  -- whatever its other components and its name are.
  pub classify_components-strong :
      (front back : List Text) (c base : Text)
      → member c strong_os ≡ true
      → classify_components letters (front ++ c ∷ back) base ≡ os
  unfolding classify_components
  classify_components-strong front back c base h =
      ground (arith, h, any-append (λ c. member c strong_os) front (c ∷ back))
