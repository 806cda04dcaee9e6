-- ===== src/Dedup/Tests.antt =====
-- Instances for the search for duplicates, over files whose content is their path but for its
-- first letter.
use fathomline.Prelude.{ℕ, true, List, [], ◌∷◌, ◌≡◌, refl, All, list_beq, Memᴰ}
use fathomline.Prelude.Json.{Text, codes}
use fathomline.Prelude.Effect.{Outcome, ok, raised}
use fathomline.Remediation.Plan.{int}
use fathomline.Dedup.{
  Candidate, DuplicateGroup, Hasher, keep_shortest_path, add_to, group_by, confirmed, of_partial,
  of_size, find_duplicates, group_of,
}
use fathomline.Dedup.Complete.{same_content, find_duplicates-complete}
use fathomline.Dedup.Confirmed.{Confirmed, find_duplicates-Confirmed}

abbrev content : Text → Outcome ℕ Text
content [] = raised 2
content (b ∷ t) = ok t

abbrev hasher : Hasher ℕ
hasher = record { partial = λ p size. ok []; full = content }

abbrev file : ℕ → Text → ℕ → Candidate
file id path size = record { id = int id; path = path; size = size; dev = 0 }

abbrev candidates : List Candidate
candidates =
    file 1 (codes "ax") 3
    ∷ file 2 (codes "bx") 3
    ∷ file 3 (codes "cy") 3
    ∷ file 4 (codes "dx") 5
    ∷ file 5 (codes "ex") 0
    ∷ file 6 (codes "fx") 0
    ∷ []

abbrev found : List DuplicateGroup
found =
    record {
      full_hash = codes "x";
      size = 3;
      member_ids = int 1 ∷ int 2 ∷ [];
      reclaimable_bytes = 3;
      suggested_keeper_id = int 1;
    }
    ∷ []

search : find_duplicates hasher keep_shortest_path candidates true ≡ ok found
unfolding find_duplicates of_size of_partial group_by add_to confirmed keep_shortest_path list_beq
search = refl

find_duplicates-Confirmed_example : All (Confirmed hasher keep_shortest_path candidates true) found
find_duplicates-Confirmed_example =
    find_duplicates-Confirmed hasher keep_shortest_path candidates true found search

two_alike :
    same_content hasher keep_shortest_path candidates true 3 [] (codes "x")
    ≡ file 1 (codes "ax") 3 ∷ file 2 (codes "bx") 3 ∷ []
unfolding list_beq
two_alike = refl

find_duplicates-complete_example :
    Memᴰ
      (group_of hasher keep_shortest_path 3
        (codes "x")
        (file 1 (codes "ax") 3)
        (file 2 (codes "bx") 3 ∷ []))
      found
find_duplicates-complete_example =
    find_duplicates-complete hasher keep_shortest_path candidates true found 3 [] (codes "x")
      (file 1 (codes "ax") 3) (file 2 (codes "bx") 3) [] search two_alike
