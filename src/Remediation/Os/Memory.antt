-- ===== src/Remediation/Os/Memory.antt =====
-- A file system in memory that obeys the laws, for the tests: a node for each name of a directory.
-- Any text opens as the directory of its length, and a directory in it as that of its name.
use fathomline.Prelude.{
  ℕ, ◌+◌, true, false, Option, none, some, [], ◌∷◌, ◌≡◌, refl, arith, ℕ_eq, length, ==_refl, sym,
  Bool-cases, inl, inr, if◌then◌else◌,
}
use fathomline.Prelude.Json.{Text, Text_eq}
use fathomline.Remediation.Os.{Os, Stat, fd, Made, made, exists}
use fathomline.Remediation.Os.Posix.{same_place, inode_at, IsPosix, KeepsAll, KeepsBut}

pub record Node : Type 0 where
  pub stat : Stat
  pub content : Text

abbrev pub Files : Type 0
Files = ℕ → Text → Option Node

abbrev stat_of : Option Node → Option Stat
stat_of none = none
stat_of (some v) = some v.stat

abbrev content_of : Option Node → Option Text
content_of none = none
content_of (some v) = some v.content

abbrev pub write : Files → ℕ → Text → Option Node → Files
write fs d n v e m = if same_place d n e m then v else fs e m

abbrev directory : Node
directory = record { stat = record { is_link = false; ino = 0; size = 0 }; content = [] }

abbrev mkdir : Option Node → Files → ℕ → Text → Made × Files
mkdir (some v) fs d n = (exists, fs)
mkdir none fs d n = (made, write fs d n (some directory))

abbrev unlink : Option Node → Files → ℕ → Text → Option ℕ × Files
unlink none fs d n = (some 2, fs)
unlink (some v) fs d n = (none, write fs d n none)

abbrev link : Option Node → Option Node → Files → ℕ → Text → Made × Files
link none _ fs e m = (Made.refused 2, fs)
link (some v) (some u) fs e m = (exists, fs)
link (some v) none fs e m = (made, write fs e m (some v))

abbrev rename : Option Node → Files → ℕ → Text → ℕ → Text → Option ℕ × Files
rename none fs d n e m = (some 2, fs)
rename (some v) fs d n e m = (none, write (write fs d n none) e m (some v))

-- The last part of a path, and what stands before it, in the paths of the tests: one letter.
abbrev parent_of : Text → Text
parent_of [] = []
parent_of (b ∷ t) = []

abbrev pub memory : Os
memory = record {
  Fs = Files;
  parent = parent_of;
  name = λ t. t;
  lstat = λ fs p. stat_of (fs 0 p);
  open_directory = λ fs p. fd (length p);
  open_nofollow = λ fs p. fd (length p);
  open_at = λ fs d n. fd (d + length n);
  lstat_at = λ fs d n. stat_of (fs d n);
  read_at = λ fs d n. content_of (fs d n);
  make_private_directory = λ fs p. (none, fs);
  mkdir_at = λ fs d n. mkdir (fs d n) fs d n;
  rename_at = λ fs d n e m. rename (fs d n) fs d n e m;
  link_at = λ fs d n e m. link (fs d n) (fs e m) fs e m;
  unlink_at = λ fs d n. unlink (fs d n) fs d n;
}

same_place_self : (d : ℕ) (n : Text) → same_place d n d n ≡ true
same_place_self d n = ground (arith, ==_refl n)

-- Writing a place leaves the others, and at the place itself what was there is known.
write_other :
    (fs : Files) (d : ℕ) (n : Text) (v : Option Node) (e : ℕ) (m : Text)
    → same_place d n e m ≡ false
    → write fs d n v e m ≡ fs e m
write_other fs d n v e m h = rw h

same_node :
    (fs : Files) (d : ℕ) (n : Text) (e : ℕ) (m : Text) → same_place d n e m ≡ true → fs e m ≡ fs d n
same_node fs d n e m h =
    let p : d ≡ e = ground arith in
    let q : n ≡ m = (Text_eq.beq_iff n m).0 (ground arith) in λ i. fs (sym p i) (sym q i)

write_keeps :
    (fs : Files) (d : ℕ) (n : Text) (v : Option Node)
    → fs d n ≡ none
    → KeepsAll memory fs (write fs d n v)
write_keeps fs d n v free e m i h = elim (Bool-cases (same_place d n e m)) [
  | inl p ↦ absurd (ground (arith, same_node fs d n e m p))
  | inr p ↦ rw p h
]

mkdir_keeps :
    (o : Option Node) (fs : Files) (d : ℕ) (n : Text)
    → fs d n ≡ o
    → KeepsAll memory fs (mkdir o fs d n).1
mkdir_keeps (some v) fs d n is e m i h = h
mkdir_keeps none fs d n is e m i h = write_keeps fs d n (some directory) is e m i h

link_made :
    (o p : Option Node) (fs : Files) (d : ℕ) (n : Text) (e : ℕ) (m : Text)
    → fs d n ≡ o
    → fs e m ≡ p
    → (link o p fs e m).0 ≡ made
    → (i : ℕ) × (inode_at memory fs d n ≡ some i)
      × (inode_at memory fs e m ≡ none)
      × (inode_at memory (link o p fs e m).1 e m ≡ some i)
link_made none p fs d n e m x y h = cc
link_made (some v) (some u) fs d n e m x y h = cc
link_made (some v) none fs d n e m x y h = (v.stat.ino, rw x, rw y, rw (same_place_self e m))

link_keeps :
    (o p : Option Node) (fs : Files) (e : ℕ) (m : Text)
    → fs e m ≡ p
    → KeepsAll memory fs (link o p fs e m).1
link_keeps none p fs e m is d n i h = h
link_keeps (some v) (some u) fs e m is d n i h = h
link_keeps (some v) none fs e m is d n i h = write_keeps fs e m (some v) is d n i h

unlink_done :
    (o : Option Node) (fs : Files) (d : ℕ) (n : Text)
    → (unlink o fs d n).0 ≡ none
    → inode_at memory (unlink o fs d n).1 d n ≡ none
unlink_done none fs d n h = cc
unlink_done (some v) fs d n h = rw (same_place_self d n)

unlink_keeps :
    (o : Option Node) (fs : Files) (d : ℕ) (n : Text) → KeepsBut memory d n fs (unlink o fs d n).1
unlink_keeps none fs d n e m i other h = h
unlink_keeps (some v) fs d n e m i other h = rw other h

unlink_failed :
    (o : Option Node) (fs : Files) (d : ℕ) (n : Text) (x : ℕ)
    → (unlink o fs d n).0 ≡ some x
    → (unlink o fs d n).1 ≡ fs
unlink_failed none fs d n x h = refl
unlink_failed (some v) fs d n x h = cc

apart_of_free :
    (fs : Files) (d : ℕ) (n : Text) (e : ℕ) (m : Text) {v : Node}
    → fs d n ≡ some v
    → inode_at memory fs e m ≡ none
    → same_place e m d n ≡ false
apart_of_free fs d n e m is free = elim (Bool-cases (same_place e m d n)) [
  | inl p ↦ absurd (ground (arith, same_node fs e m d n p))
  | inr p ↦ p
]

rename_done :
    (o : Option Node) (fs : Files) (d : ℕ) (n : Text) (e : ℕ) (m : Text)
    → fs d n ≡ o
    → inode_at memory fs e m ≡ none
    → (rename o fs d n e m).0 ≡ none
    → (i : ℕ) × (inode_at memory fs d n ≡ some i)
      × (inode_at memory (rename o fs d n e m).1 e m ≡ some i)
      × (inode_at memory (rename o fs d n e m).1 d n ≡ none)
      × KeepsBut memory d n fs (rename o fs d n e m).1
rename_done none fs d n e m is free h = cc
rename_done (some v) fs d n e m is free h =
    let apart = apart_of_free fs d n e m is free in
    (
      v.stat.ino,
      rw is,
      rw (same_place_self e m),
      rw (apart, same_place_self d n),
      λ a b i other there. elim (Bool-cases (same_place e m a b)) [
        | inl p ↦ absurd (ground (arith, same_node fs e m a b p))
        | inr p ↦ rw (p, other) there
      ],
    )

rename_failed :
    (o : Option Node) (fs : Files) (d : ℕ) (n : Text) (e : ℕ) (m : Text) (x : ℕ)
    → (rename o fs d n e m).0 ≡ some x
    → (rename o fs d n e m).1 ≡ fs
rename_failed none fs d n e m x h = refl
rename_failed (some v) fs d n e m x h = cc

pub memory-IsPosix : IsPosix memory
memory-IsPosix = record {
  mkdir_keeps = λ fs d n. mkdir_keeps (fs d n) fs d n refl;
  link_made = λ fs d n e m. link_made (fs d n) (fs e m) fs d n e m refl refl;
  link_keeps = λ fs d n e m. link_keeps (fs d n) (fs e m) fs e m refl;
  unlink_done = λ fs d n. unlink_done (fs d n) fs d n;
  unlink_keeps = λ fs d n. unlink_keeps (fs d n) fs d n;
  unlink_failed = λ fs d n. unlink_failed (fs d n) fs d n;
  rename_done = λ fs d n e m. rename_done (fs d n) fs d n e m refl;
  rename_failed = λ fs d n e m. rename_failed (fs d n) fs d n e m;
}
