-- ===== src/Deployment/Scan.antt =====
-- deployment/deploy_generator.go: the scan for services, and the run of the generator.
use caaspay_core.Prelude.{
  Bool, Option, none, some, Text, codes, List, [], ◌∷◌, ◌++◌, map, Result, ok, err, text_eq,
  if◌then◌else◌,
}
use caaspay_core.Prelude.Dict.{Dict, get}
use caaspay_core.Deployment.{
  env_dir, files_dir, Yaml, Config, Credentials, ServiceData, format_service_name, Filters,
  filter_services, write_env_and_credentials,
}
use caaspay_core.Deployment.Compose.{Template, generate_docker_compose}

-- The files that are read: the walk over the directory gives each path with the name of its file.
pub record Source (V : Type 0) : Type 0 where
  pub walk : Text → Result (List (Text × Text))
  pub dir : Text → Text
  pub join : Text → Text → Text
  pub load_config : Text → Result (Config V)
  pub load_credentials : Text → Credentials  -- what there is, whatever the error

module _ {V : Type 0} (y : Yaml V) where
  abbrev pub helper_dependency : Config V → (key : Text) → Option V
  helper_dependency c key = elim (get (codes "helper_dependency") c.setting) [
    | none ↦ none
    | some d ↦ elim (y.as_map d) [ none ↦ none | some m ↦ get key m ]
  ]

  abbrev pub first_or_core : Option (List V) → Text
  first_or_core (some (v ∷ _)) = y.render v
  first_or_core _ = codes "core"

  unfoldable pub extract_base_helper : Config V → Text
  extract_base_helper c = elim (helper_dependency c (codes "base_helper")) [
    | none ↦ codes "core"
    | some b ↦ first_or_core (y.as_list b)
  ]

  unfoldable pub extract_support_helper : Config V → List Text
  extract_support_helper c = elim (helper_dependency c (codes "support_helper")) [
    | none ↦ []
    | some d ↦ elim (y.as_list d) [ none ↦ [] | some vs ↦ map y.render vs ]
  ]

  module _ (src : Source V) where
    unfoldable pub service_at : (path : Text) → Config V → ServiceData V
    unfolding extract_base_helper extract_support_helper
    service_at path config =
        let service_path = src.dir path in
        let service_name = format_service_name service_path in
        record {
          name = service_name;
          config = config;
          credentials = src.load_credentials (src.join service_path (codes "credentials.yaml"));
          base_helper = extract_base_helper config;
          support_helper = extract_support_helper config;
          env_file = env_dir ++ (codes "/" ++ (service_name ++ codes ".env"));
          credential_dir = files_dir ++ (codes "/" ++ service_name);
        }

    -- A configuration that cannot be loaded is passed over with a warning.
    abbrev pub loaded : (path : Text) → Result (Config V) → List (ServiceData V)
    loaded path (err _) = []
    loaded path (ok config) = service_at path config ∷ []

    unfoldable pub scan_paths : List (Text × Text) → List (ServiceData V)
    scan_paths [] = []
    scan_paths ((path, name) ∷ visits) =
        let rest = scan_paths visits in
        if text_eq name (codes "config.yaml")
        then loaded path (src.load_config path) ++ rest
        else rest

    unfoldable pub scan_services : (services_dir : Text) → Result (List (ServiceData V))
    unfolding scan_paths
    scan_services services_dir = elim (src.walk services_dir) [
      | err x ↦ err x
      | ok visits ↦ ok (scan_paths visits)
    ]

    -- The files that the generator writes.
    unfoldable pub generate :
        Template V → (creates : Text → Bool) (base : Text → Text) → Filters → Dict Text → Dict Text
    unfolding scan_services filter_services write_env_and_credentials generate_docker_compose
    generate t creates base f files = elim (scan_services (codes "service")) [
      | err _ ↦ files
      | ok services ↦
          let kept = filter_services f services in
          generate_docker_compose y t creates base kept
            (write_env_and_credentials creates base kept files)
    ]
