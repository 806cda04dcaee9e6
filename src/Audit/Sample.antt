-- ===== src/Audit/Sample.antt =====
-- A writer and a hash with the properties that the audit log relies on, for the tests: each value
-- is written with its tag and its size, and a text is hashed to itself, one byte higher.
use fathomline.Prelude.{ℕ, suc, Bool, true, false, [], ◌∷◌, ◌++◌, ◌≡◌, ◌≢◌, refl, arith, ap, length}
use fathomline.Prelude.Json.{
  Text, Json, Items, Members, null, bool, num, neg, str, arr, obj, nil, cons, end, member,
}
use fathomline.Audit.{Codec, genesis_hash}
use fathomline.Audit.Tamper.{IsSound, Clean}

abbrev bit : Bool → ℕ
bit true = 1
bit false = 0

-- Each writes in front of what follows.
unfoldable mutual
  pub write : Json → Text → Text
  write null r = 0 ∷ r
  write (bool b) r = 1 ∷ bit b ∷ r
  write (num n) r = 2 ∷ n ∷ r
  write (str t) r = 3 ∷ length t ∷ (t ++ r)
  write (arr i) r = 4 ∷ write_items i r
  write (obj m) r = 5 ∷ write_members m r
  write (neg n) r = 6 ∷ n ∷ r

  pub write_items : Items → Text → Text
  write_items nil r = 0 ∷ r
  write_items (cons j i) r = 1 ∷ write j (write_items i r)

  pub write_members : Members → Text → Text
  write_members end r = 0 ∷ r
  write_members (member t j m) r = 1 ∷ length t ∷ (t ++ write j (write_members m r))

same_text : (s t r q : Text) → length s ≡ length t → s ++ r ≡ t ++ q → (s ≡ t) × (r ≡ q)
same_text [] [] r q n e = (refl, e)
same_text (x ∷ s) (y ∷ t) r q n e =
    let (a, b) = same_text s t r q (omega arith) (cc) in (ground arith, b)
same_text [] (y ∷ t) r q n e = absurd (omega arith)
same_text (x ∷ s) [] r q n e = absurd (omega arith)

mutual
  unfolding write

  write_one : (a b : Json) (r q : Text) → write a r ≡ write b q → (a ≡ b) × (r ≡ q)
  write_one null null r q e = ground arith
  write_one (bool b) (bool c) r q e = ground arith
  write_one (num n) (num m) r q e = ground arith
  write_one (neg n) (neg m) r q e = ground arith
  write_one (str s) (str t) r q e =
      let (a, b) = same_text s t r q (ground arith) (ground arith) in (ap str a, b)
  write_one (arr i) (arr j) r q e = let (a, b) = items_one i j r q (ground arith) in (ap arr a, b)
  write_one (obj m) (obj n) r q e = let (a, b) = members_one m n r q (ground arith) in (ap obj a, b)
  write_one _ _ r q e = ground arith

  items_one : (a b : Items) (r q : Text) → write_items a r ≡ write_items b q → (a ≡ b) × (r ≡ q)
  items_one nil nil r q e = ground arith
  items_one (cons j i) (cons k l) r q e =
      let (a, rest) = write_one j k (write_items i r) (write_items l q) (ground arith) in
      let (b, c) = items_one i l r q rest in (ground arith, c)
  items_one _ _ r q e = ground arith

  members_one :
      (a b : Members) (r q : Text) → write_members a r ≡ write_members b q → (a ≡ b) × (r ≡ q)
  members_one end end r q e = ground arith
  members_one (member s j m) (member t k n) r q e =
      let (a, rest) =
        same_text s t (write j (write_members m r)) (write k (write_members n q)) (ground arith)
          (ground arith) in
      let (b, rest') = write_one j k (write_members m r) (write_members n q) rest in
      let (c, d) = members_one m n r q rest' in (ground arith, d)
  members_one _ _ r q e = ground arith

unfoldable pub shift : Text → Text
shift [] = []
shift (b ∷ t) = suc b ∷ shift t

shift_injective : (a b : Text) → shift a ≡ shift b → a ≡ b
unfolding shift
shift_injective [] [] e = refl
shift_injective (x ∷ a) (y ∷ b) e = ground (arith, shift_injective a b)
shift_injective [] (y ∷ b) e = cc
shift_injective (x ∷ a) [] e = cc

shift-Clean : (a : Text) → Clean (shift a)
unfolding shift
shift-Clean [] = tt
shift-Clean (b ∷ t) = (λ e. cc, shift-Clean t)

abbrev pub sample_codec : Codec
sample_codec = record { dumps = λ j. write j []; blake3 = λ t. 49 ∷ shift t }

sample_dumps_injective : (a b : Json) → write a [] ≡ write b [] → a ≡ b
sample_dumps_injective a b e = (write_one a b [] [] e).0

sample_not_genesis : (a : Text) → 49 ∷ shift a ≢ genesis_hash
unfolding genesis_hash
sample_not_genesis a e = ground arith

pub sample-IsSound : IsSound sample_codec
sample-IsSound = record {
  dumps_injective = sample_dumps_injective;
  blake3_injective = λ a b e. shift_injective a b (cc);
  digest_clean = λ a. (λ e. ground arith, shift-Clean a);
  not_genesis = sample_not_genesis;
}
