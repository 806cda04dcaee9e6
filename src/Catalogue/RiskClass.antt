-- ===== src/Catalogue/RiskClass.antt =====
-- core/riskclass.py: how dangerous it is to touch a path. `str.strip` and `str.lower`, which follow the
-- tables of Unicode, are parameters.
pub mod Counting
mod Tests
use fathomline.Prelude.{
  ℕ, zero, suc, ◌+◌, Bool, true, false, not, ◌&&◌, ◌||◌, Option, none, some, List, [], ◌∷◌, map,
  any, keep, length, if◌then◌else◌, ◌==◌, member, ℕ_eq, Eq,
}
use fathomline.Prelude.Json.{Text, Text_eq, codes}
use fathomline.Prelude.Path.{slash, split, last_of, starts_with, ends_with, contains}

abbrev strong_os : List Text
strong_os =
    codes "etc"
    ∷ codes "boot"
    ∷ codes "sys"
    ∷ codes "proc"
    ∷ codes "windows"
    ∷ codes "system32"
    ∷ codes "winsxs"
    ∷ codes "programdata"
    ∷ codes "program files"
    ∷ codes "program files (x86)"
    ∷ []

abbrev root_os : List Text
root_os =
    codes "usr"
    ∷ codes "bin"
    ∷ codes "sbin"
    ∷ codes "lib"
    ∷ codes "lib64"
    ∷ codes "dev"
    ∷ codes "run"
    ∷ codes "root"
    ∷ codes "var"
    ∷ []

abbrev service_dirs : List Text
service_dirs =
    codes "overlay2"
    ∷ codes "containers"
    ∷ codes "containerd"
    ∷ codes "volumes"
    ∷ codes "pgdata"
    ∷ codes "postgres"
    ∷ codes "postgresql"
    ∷ codes "mysql"
    ∷ codes "mariadb"
    ∷ codes "mongodb"
    ∷ codes "mongo"
    ∷ codes "redis"
    ∷ codes "valkey"
    ∷ codes "etcd"
    ∷ codes "appdata"
    ∷ codes ".config"
    ∷ []

pub data RiskClass : Type 0 where
  os services config user : RiskClass

abbrev pub same_class : RiskClass → RiskClass → Bool
same_class os os = true
same_class services services = true
same_class config config = true
same_class user user = true
same_class _ _ = false

-- `HIGH_RISK`
abbrev pub high_risk : RiskClass → Bool
high_risk os = true
high_risk services = true
high_risk _ = false

abbrev pub is_blank : Text → Bool
is_blank [] = true
is_blank (b ∷ text) = false

pub record Counts : Type 0 where
  pub of_os : ℕ
  pub of_services : ℕ
  pub of_config : ℕ
  pub of_user : ℕ

abbrev pub one_more : RiskClass → Counts → Counts
one_more os c = record c { of_os = c.of_os + 1 }
one_more services c = record c { of_services = c.of_services + 1 }
one_more config c = record c { of_config = c.of_config + 1 }
one_more user c = record c { of_user = c.of_user + 1 }

pub record Letters : Type 0 where
  pub strip : Text → Text
  pub lower : Text → Text

module _ (letters : Letters) where
  abbrev config_name : Text → Bool
  config_name n =
      (n == codes ".env" || ends_with (codes ".env") n)
      || (starts_with (codes "docker-compose") n || starts_with (codes "compose.") n)
      || (n == codes "dockerfile" || starts_with (codes "dockerfile.") n)
      || (ends_with (codes ".conf") n
          || ends_with (codes ".cfg") n
          || ends_with (codes ".ini") n
          || ends_with (codes ".service") n
          || n == codes "nginx.conf")

  unfoldable pub is_config_file : Text → Bool
  unfolding starts_with
  is_config_file name = config_name (letters.lower name)

  abbrev pub components : Text → List Text
  components path =
      map (λ c. letters.lower (letters.strip c))
        (keep (λ c. not (is_blank (letters.strip c))) (split slash path))

  abbrev last_or_empty : List Text → Text
  last_or_empty [] = []
  last_or_empty (c ∷ comps) = last_of c comps

  -- `name or (comps[-1] if comps else "")`
  abbrev base_name : Option Text → List Text → Text
  base_name none comps = last_or_empty comps
  base_name (some name) comps = if is_blank name then last_or_empty comps else name

  abbrev without_alias : List Text → List Text
  without_alias [] = []
  without_alias (c ∷ comps) = if c == codes "scan" then comps else c ∷ comps

  abbrev at_root : List Text → Bool
  at_root [] = false
  at_root (c ∷ comps) = member c root_os

  unfoldable pub classify_components : List Text → Text → RiskClass
  unfolding is_config_file contains
  classify_components real base =
      if any (λ c. member c strong_os) real
      then os
      else if is_config_file base
      then config
      else if any (λ c. member c service_dirs || contains (codes "docker") c) real
      then services
      else if at_root real
      then os
      else user

  unfoldable pub classify_path : Text → Option Text → RiskClass
  unfolding classify_components
  classify_path path name =
      let comps = components path in
      classify_components (without_alias comps) (letters.lower (base_name name comps))

  -- The loop of `classify_paths`.
  unfoldable pub count_paths : List Text → Counts → Counts
  unfolding classify_path
  count_paths [] c = c
  count_paths (p ∷ paths) c = count_paths paths (one_more (classify_path p none) c)

  unfoldable pub classify_paths : List Text → Counts
  unfolding count_paths
  classify_paths paths =
      count_paths paths (record { of_os = 0; of_services = 0; of_config = 0; of_user = 0 })
