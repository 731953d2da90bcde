-- ===== src/Config/Tests.antt =====
-- The theorem about the configuration at a concrete input, and runs.
use caaspay_core.Prelude.{
  ℕ, ◌++◌, ◌≡◌, refl, Bool, false, some, codes, List, [], ◌∷◌, ok, errorf, is_empty, has_prefix,
  text_eq,
}
use caaspay_core.Config.{Config, missing_fields, complain, spaced, validate}
use caaspay_core.Config.Defaults.{default_config}
use caaspay_core.Config.Load.{
  DirEntry, Viper, load_config, checked, merge_files, merge_file, is_config_file, has_suffix,
  load_config-valid, merge_all, config_files,
}

abbrev sample : Config Bool
sample = default_config

abbrev base_file : DirEntry
base_file = record { name = codes "dev.yaml"; is_dir = false }

abbrev other_file : DirEntry
other_file = record { name = codes "prod.yaml"; is_dir = false }

abbrev broken_file : DirEntry
broken_file = record { name = codes "dev-broken.yaml"; is_dir = false }

-- Settings are the names of the merged files.
abbrev files : Viper (List (List ℕ)) Bool
files = record {
  read_dir = λ d. ok (base_file ∷ other_file ∷ broken_file ∷ []);
  join = λ dir name. dir ++ (codes "/" ++ name);
  start = [];
  read_in_config = λ p. ok (p ∷ []);
  merge = λ s t. ok (s ++ t);
  unmarshal = λ s. ok sample;
}

merged_files :
    merge_files files (codes "c") (codes "dev") (base_file ∷ other_file ∷ broken_file ∷ []) []
    ≡ codes "c/dev.yaml" ∷ codes "c/dev-broken.yaml" ∷ []
unfolding merge_files merge_file is_config_file has_suffix has_prefix text_eq
merged_files = refl

load_config-valid_example :
    (is_empty sample.framework.service_name ≡ false)
    × (is_empty sample.app_name ≡ false)
    × (is_empty sample.encryption_key ≡ false)
    × ((fs : List DirEntry) × (files.read_dir (codes "./config") ≡ ok fs)
        × (files.unmarshal (merge_all files (codes "./config") (config_files (codes "dev") fs) [])
            ≡ ok sample))
unfolding load_config checked validate complain missing_fields
load_config-valid_example = load_config-valid files [] (codes "dev") sample refl

-- The list of what is missing.
refused :
    validate (record sample { app_name = []; encryption_key = [] })
    ≡ some (errorf (codes "Missing required fields: [AppName EncryptionKey]"))
unfolding validate complain missing_fields spaced
refused = refl
