-- ===== src/Catalogue/Rollup/Tests.antt =====
-- Instances for the modules of the rollup.
use fathomline.Prelude.{
  ℕ, Bool, true, false, [], ◌∷◌, ◌++◌, ◌≡◌, refl, arith, any, length, member, ℕ_eq,
}
use fathomline.Prelude.Json.{Text, Text_eq, codes}
use fathomline.Prelude.Path.{lstrip, rstrip, starts_with}
use fathomline.Catalogue.Rollup.{Entry, Volume, live, recompute_full}
use fathomline.Catalogue.Rollup.Holding.{holds}
use fathomline.Catalogue.Rollup.Rows.{paths}
use fathomline.Catalogue.Rollup.Totals.{
  held_in, totals_of, total_at, history_point, AllTidy, recompute_full-totals,
}
use fathomline.Catalogue.Rollup.Distinct.{Distinct, IsMount}

abbrev entry : ℕ → Bool → Text → Entry
entry volume_id present path = record {
  volume_id = volume_id;
  present = present;
  path = path;
  size_logical = 3;
  size_on_disk = 4;
  is_dir = false;
}

-- A removed entry, one of another volume, and one that lies elsewhere stand beside the others.
abbrev volume : Volume
volume = record {
  id = 1;
  mountpoint = codes "/m";
  entries =
      entry 1 true (codes "/m/a/x")
      ∷ entry 1 false (codes "/m/a/y")
      ∷ entry 2 true (codes "/m/a/z")
      ∷ entry 1 true (codes "/other/w")
      ∷ [];
  rollup = [];
  history = [];
}

slash_m-IsMount : IsMount (codes "/m")
unfolding rstrip
slash_m-IsMount = omega arith

volume-AllTidy : AllTidy (codes "/m") (live volume)
unfolding lstrip rstrip starts_with
volume-AllTidy = (λ h. (codes "a/x", refl, (refl, refl)), (λ h. cc, tt))

recompute_full-totals_example :
    let (inserted, v') = recompute_full volume in
    (total_at (codes "/m/a") v'.rollup
      ≡ totals_of (held_in (codes "/m") (codes "/m/a") (live volume)))
    × (member (codes "/m/a") (paths v'.rollup)
        ≡ any (λ e. holds (codes "/m") (codes "/m/a") e.path) (live volume))
    × Distinct (paths v'.rollup)
    × (inserted ≡ length v'.rollup)
    × (v'.history ≡ [] ++ history_point (held_in (codes "/m") (codes "/m") (live volume)) ∷ [])
recompute_full-totals_example =
    recompute_full-totals volume (codes "/m/a") slash_m-IsMount volume-AllTidy
