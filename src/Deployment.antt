-- ===== src/Deployment.antt =====
-- deployment/deploy_generator.go: the services that the generator finds, which of them it keeps, and
-- what it writes for them. The file system, package yaml and the template of the compose file are
-- parameters or left out; the values of a map are visited in the order of its entries.
pub mod Scan
pub mod Selection
pub mod Compose
mod Tests
use caaspay_core.Prelude.{
  ℕ, zero, suc, ◌+◌, Bool, true, false, not, ◌&&◌, ◌||◌, Option, none, some, Text, codes, List, [],
  ◌∷◌, ◌++◌, map, length, Result, ok, err, is_empty, contains, trim_prefix, leb, if◌then◌else◌,
  ◌==◌, text_eq,
}
use caaspay_core.Prelude.Dict.{Dict, get, put}
use caaspay_core.Naming.{split}

abbrev pub env_dir : Text
env_dir = codes "container_envs_production"

abbrev pub files_dir : Text
files_dir = codes "container_files"

-- The values of a YAML document, as the source takes them apart.
pub record Yaml (V : Type 0) : Type 0 where
  pub as_map : V → Option (Dict V)
  pub as_list : V → Option (List V)
  pub render : V → Text  -- `%v`

pub record Config (V : Type 0) : Type 0 where
  pub helper : Dict (Dict V)
  pub setting : Dict V
  pub service_config : Dict V

pub record CredentialFile : Type 0 where
  pub container_path : Text
  pub content : Text

pub record Credentials : Type 0 where
  pub environment : Dict Text
  pub file : List CredentialFile

pub record ServiceData (V : Type 0) : Type 0 where
  pub name : Text
  pub config : Config V
  pub credentials : Credentials
  pub base_helper : Text
  pub support_helper : List Text
  pub env_file : Text
  pub credential_dir : Text

-- strings.ReplaceAll(s, "/", "-")
abbrev pub dash_slashes : Text → Text
dash_slashes s = map (λ c. if c == b'/' then b'-' else c) s

unfoldable pub format_service_name : Text → Text
format_service_name path = dash_slashes (trim_prefix path (codes "service/"))

-- strings.TrimSpace on ASCII text.
abbrev pub is_space : ℕ → Bool
is_space c = (c == 32) || (leb 9 c && leb c 13)

unfoldable pub trim_left : Text → Text
trim_left [] = []
trim_left (c ∷ s) = if is_space c then trim_left s else c ∷ s

unfoldable pub trim_right : Text → Text
trim_right [] = []
trim_right (c ∷ s) = let rest = trim_right s in if is_space c && is_empty rest then [] else c ∷ rest

abbrev pub trim_space : Text → Text
trim_space s = trim_right (trim_left s)

unfoldable pub matches_one : (service_name : Text) → List Text → Bool
matches_one service_name [] = false
matches_one service_name (f ∷ fs) =
    contains service_name (trim_space f) || matches_one service_name fs

unfoldable pub matches_filter : (service_name filter : Text) → Bool
unfolding matches_one
matches_filter service_name filter =
    if is_empty filter then false else matches_one service_name (split b',' filter)

-- The six options.
pub record Filters : Type 0 where
  pub include_system : Text
  pub include_type : Text
  pub include_service : Text
  pub exclude_system : Text
  pub exclude_type : Text
  pub exclude_service : Text

abbrev pub is_excluded : Filters → Text → Bool
is_excluded f name =
    matches_filter name f.exclude_system
    || (matches_filter name f.exclude_type || matches_filter name f.exclude_service)

abbrev pub is_included : Filters → Text → Bool
is_included f name =
    (is_empty f.include_system || matches_filter name f.include_system)
    && ((is_empty f.include_type || matches_filter name f.include_type)
        && (is_empty f.include_service || matches_filter name f.include_service))

abbrev pub is_kept : Filters → Text → Bool
is_kept f name = not (is_excluded f name) && is_included f name

-- A file that was written.
abbrev pub File : Type 0
File = Text × Text

-- The lines of the `.env` file: the variables, and an alias for each service.
abbrev pub env_line : Text × Text → Text
env_line (key, value) = key ++ (codes "=" ++ (value ++ codes "\n"))

abbrev pub concat : List Text → Text
concat [] = []
concat (t ∷ ts) = t ++ concat ts

-- os.Create fails where `creates` says so, and then nothing is written. `base` is filepath.Base.
module _ (creates : Text → Bool) (base : Text → Text) where
  abbrev pub created : Text → Text → Dict Text → Dict Text
  created path content files = if creates path then put path content files else files

  unfoldable pub write_credential_file : (directory : Text) → CredentialFile → Dict Text → Dict Text
  write_credential_file directory f files =
      created (directory ++ (codes "/" ++ base f.container_path)) f.content files

  unfoldable pub write_credential_files :
      (directory : Text) → List CredentialFile → Dict Text → Dict Text
  unfolding write_credential_file
  write_credential_files directory [] files = files
  write_credential_files directory (f ∷ fs) files =
      write_credential_files directory fs (write_credential_file directory f files)

module _ {V : Type 0} where
  unfoldable pub filter_services : Filters → List (ServiceData V) → List (ServiceData V)
  filter_services f [] = []
  filter_services f (s ∷ services) =
      let rest = filter_services f services in if is_kept f s.name then s ∷ rest else rest

  unfoldable pub count_credentials : List (ServiceData V) → ℕ
  count_credentials [] = 0
  count_credentials (s ∷ services) = length s.credentials.file + count_credentials services

  abbrev pub alias_line : ServiceData V → Text
  alias_line s =
      codes "service_" ++ (format_service_name s.name ++ (codes "=" ++ (s.name ++ codes "\n")))

  unfoldable pub env_text : ServiceData V → List (ServiceData V) → Text
  env_text s all_services =
      concat (map env_line s.credentials.environment) ++ concat (map alias_line all_services)

  module _ (creates : Text → Bool) (base : Text → Text) where
    unfoldable pub write_each :
        (all_services services : List (ServiceData V)) → Dict Text → Dict Text
    unfolding write_credential_files env_text
    write_each all_services [] files = files
    write_each all_services (s ∷ services) files = write_each all_services services (
        write_credential_files creates base s.credential_dir s.credentials.file
          (created creates base s.env_file (env_text s all_services) files))

    unfoldable pub write_env_and_credentials : List (ServiceData V) → Dict Text → Dict Text
    unfolding write_each
    write_env_and_credentials services files = write_each services services files
