-- ===== src/Deployment/Compose.antt =====
-- deployment/deploy_generator.go: generateDockerCompose. The template is part of the source; text and
-- actions stand here in its order, with the spaces that `{{-` takes away left out. What package
-- text/template makes of a value is a parameter.
use caaspay_core.Prelude.{
  Bool, true, false, Option, none, some, Text, codes, List, [], ◌∷◌, ◌++◌, if◌then◌else◌,
}
use caaspay_core.Prelude.Dict.{Dict, get}
use caaspay_core.Deployment.{Yaml, Config, ServiceData, created}

-- `truthy` is the test of `if`; `ranged` are the elements that `range` visits, none where it fails.
pub record Template (V : Type 0) : Type 0 where
  pub truthy : V → Bool
  pub ranged : V → Option (List V)

-- The text so far, and whether the execution goes on.
abbrev pub Output : Type 0
Output = Text × Bool

abbrev pub then_text : Output → Output → Output
then_text (t, true) (u, on) = (t ++ u, on)
then_text (t, false) rest = (t, false)

module _ {V : Type 0} (yaml : Yaml V) (template : Template V) where
  -- `.docker_deployment.image`: an outer none is the error on a value that is no map, an inner one a
  -- missing key, which the template goes on with.
  unfoldable pub image_in : Option (Dict V) → Option (Option V)
  image_in none = none
  image_in (some m) = some (get (codes "image") m)

  unfoldable pub image_of : Config V → Option (Option V)
  unfolding image_in
  image_of c = elim (get (codes "docker_deployment") c.service_config) [
    | none ↦ some none
    | some v ↦ image_in (yaml.as_map v)
  ]

  unfoldable pub image_line : (name : Text) → Option (Option V) → Output
  image_line name none = ([], false)
  image_line name (some none) = (codes "\n    build: service/" ++ name, true)
  image_line name (some (some v)) = (
    if template.truthy v
        then codes "\n    image: " ++ yaml.render v
        else codes "\n    build: service/" ++ name,
    true,
  )

  unfoldable pub network_lines : List V → Text
  network_lines [] = []
  network_lines (v ∷ vs) = codes "\n      - " ++ (yaml.render v ++ network_lines vs)

  unfoldable pub networks : Option (List V) → Output
  unfolding network_lines
  networks none = ([], false)
  networks (some vs) = (network_lines vs ++ codes "\n    restart: always\n", true)

  -- A missing key is ranged over as nil.
  unfoldable pub networks_of : Config V → Option (List V)
  networks_of c = elim (get (codes "network") c.service_config) [
    | none ↦ some []
    | some v ↦ template.ranged v
  ]

  unfoldable pub compose_service : ServiceData V → Output
  unfolding image_of image_line networks networks_of
  compose_service s =
      then_text (codes "\n  " ++ (s.name ++ codes ":"), true)
        (then_text (image_line s.name (image_of s.config)) (
          then_text
            (
              codes "\n    env_file:\n      - "
                  ++ (s.env_file
                      ++ (codes "\n    volumes:\n      - \""
                          ++ (s.credential_dir ++ codes ":/etc/credentials\"\n    networks:"))),
              true,
            )
            (networks (networks_of s.config))))

  unfoldable pub compose_services : List (ServiceData V) → Output
  unfolding compose_service
  compose_services [] = ([], true)
  compose_services (s ∷ services) = then_text (compose_service s) (compose_services services)

  -- What is written, up to the error if there is one.
  unfoldable pub compose_text : List (ServiceData V) → Text
  unfolding compose_services
  compose_text services =
      (then_text (codes "version: '3.2'\nservices:\n", true)
        (then_text (compose_services services)
          (codes "\n\nnetworks:\n  caddy-config_webtraffic:\n    external: true\n", true))).0

  -- A file that was created keeps what was written before an error.
  unfoldable pub generate_docker_compose :
      (creates : Text → Bool) (base : Text → Text) → List (ServiceData V) → Dict Text → Dict Text
  unfolding compose_text
  generate_docker_compose creates base services files =
      created creates base (codes "deployment/output/docker-compose.yml") (compose_text services)
        files
