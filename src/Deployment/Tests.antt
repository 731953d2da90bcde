-- ===== src/Deployment/Tests.antt =====
-- The theorem about the generator at a concrete input, and runs.
use caaspay_core.Prelude.{
  some, ◌≡◌, refl, true, none, Text, codes, List, [], ◌∷◌, ◌++◌, ok, if◌then◌else◌, has_prefix,
  contains, text_eq, trim_prefix,
}
use caaspay_core.Prelude.Dict.{empty, get, put}
use caaspay_core.Naming.{split}
use caaspay_core.Deployment.{
  Yaml, ServiceData, Filters, format_service_name, trim_left, trim_right, matches_one,
  matches_filter, filter_services, write_each, write_env_and_credentials, write_credential_files,
  env_text,
}
use caaspay_core.Deployment.Scan.{
  Source, extract_base_helper, extract_support_helper, service_at, scan_paths, scan_services,
  generate,
}
use caaspay_core.Deployment.Compose.{
  Template, compose_service, image_of, image_line, networks, networks_of, network_lines,
  generate_docker_compose,
}
use caaspay_core.Deployment.Selection.{Selects, filter_services-Selects}

abbrev texts : Yaml Text
texts = record { as_map = λ v. none; as_list = λ v. none; render = λ v. v }

-- Two services, whose paths differ in a slash only.
abbrev tree : Source Text
tree = record {
  walk = λ d. ok (
      (codes "service/pay/api/config.yaml", codes "config.yaml")
      ∷ (codes "service/pay/api/main.go", codes "main.go")
      ∷ (codes "service/pay-api/config.yaml", codes "config.yaml")
      ∷ []);
  dir = λ p.
      if has_prefix p (codes "service/pay/")
      then codes "service/pay/api"
      else codes "service/pay-api";
  join = λ d n. d ++ (codes "/" ++ n);
  load_config = λ p. ok (record { helper = empty; setting = empty; service_config = empty });
  load_credentials = λ p. record { environment = (codes "AT", p) ∷ []; file = [] };
}

abbrev all : Filters
all = record {
  include_system = [];
  include_type = [];
  include_service = [];
  exclude_system = [];
  exclude_type = [];
  exclude_service = [];
}

abbrev services : List (ServiceData Text)
services =
    service_at texts tree (codes "service/pay/api/config.yaml")
      (record { helper = empty; setting = empty; service_config = empty })
    ∷ []

filter_services-Selects_example :
    Selects
      (record all { include_type = codes "api , web" })
      services
      (filter_services (record all { include_type = codes "api , web" }) services)
filter_services-Selects_example =
    filter_services-Selects (record all { include_type = codes "api , web" }) services

-- A comma at the end of a filter makes an empty part, which occurs in every name.
trailing_comma : matches_filter (codes "pay-api") (codes "shop,") ≡ true
unfolding matches_filter matches_one contains has_prefix split trim_left trim_right
trailing_comma = refl

-- A template whose values are all true and are no sequence.
abbrev plain : Template Text
plain = record { truthy = λ v. true; ranged = λ v. none }

-- Without an image the service is built from the directory of its name, dashes included.
built :
    compose_service texts plain (
      service_at texts tree
        (codes "service/pay/api/config.yaml")
        (record { helper = empty; setting = empty; service_config = empty }))
    ≡ (
      codes
          "\n  pay-api:\n    build: service/pay-api\n    env_file:\n      - container_envs_production/pay-api.env\n    volumes:\n      - \"container_files/pay-api:/etc/credentials\"\n    networks:\n    restart: always\n",
      true,
    )
unfolding compose_service image_of image_line networks networks_of network_lines service_at
    extract_base_helper extract_support_helper format_service_name trim_prefix has_prefix get
    text_eq
built = refl

-- The second service takes the place of the first.
one_file :
    get
      (codes "container_envs_production/pay-api.env")
      (generate texts tree plain (λ p. true) (λ p. p) all empty)
    ≡ some (
        codes
          "AT=service/pay-api/credentials.yaml\nservice_pay-api=pay-api\nservice_pay-api=pay-api\n")
unfolding generate generate_docker_compose scan_services scan_paths service_at extract_base_helper
    extract_support_helper filter_services matches_filter write_env_and_credentials write_each
    write_credential_files env_text format_service_name get put text_eq trim_prefix has_prefix
one_file = refl
