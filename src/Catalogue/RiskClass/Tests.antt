-- ===== src/Catalogue/RiskClass/Tests.antt =====
-- A run of the classification, with letters that are left as they are.
use fathomline.Prelude.{none, ◌≡◌, refl, list_beq}
use fathomline.Prelude.Json.{Text_eq, codes}
use fathomline.Prelude.Path.{split, starts_with, contains, last_of}
use fathomline.Catalogue.RiskClass.{
  Letters, services, classify_path, classify_components, is_config_file,
}

abbrev plain : Letters
plain = record { strip = λ t. t; lower = λ t. t }

docker_is_services : classify_path plain (codes "/var/lib/docker/x") none ≡ services
unfolding classify_path classify_components is_config_file contains starts_with split list_beq
    last_of
docker_is_services = refl
