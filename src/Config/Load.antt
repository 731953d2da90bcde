-- ===== src/Config/Load.antt =====
-- base/microservice/internal/config/config.go: LoadConfig.
use caaspay_core.Prelude.{
  ◌≡◌, refl, sym, ap, ◌∙◌, Bool, false, Bool-cases, inl, inr, not, ◌&&◌, ◌||◌, Option, none, some,
  Text, codes, List, [], ◌∷◌, Error, wrap, Result, ok, err, or_wrap, ◌>>=◌, is_empty, has_prefix,
  text_eq, bind-ok, or_wrap-ok, if◌then◌else◌, arith,
}
use caaspay_core.Config.{Config, validate, complain, missing_fields}

pub record DirEntry : Type 0 where
  pub name : Text
  pub is_dir : Bool

-- What LoadConfig asks of the operating system and of viper, over viper's settings `S`: the defaults
-- together with the environment, filepath.Join, the reading and merging of a file, and the decoding.
pub record Viper (S D : Type 0) : Type 0 where
  pub read_dir : Text → Result (List DirEntry)
  pub join : Text → Text → Text
  pub start : S
  pub read_in_config : Text → Result S
  pub merge : S → S → Result S
  pub unmarshal : S → Result (Config D)

abbrev pub or_text : Text → Text → Text
or_text d t = if is_empty t then d else t

-- strings.HasSuffix
unfoldable pub has_suffix : Text → Text → Bool
has_suffix [] suffix = is_empty suffix
has_suffix (c ∷ s) suffix = let rest = has_suffix s suffix in text_eq (c ∷ s) suffix || rest

unfoldable pub is_config_file : (environment : Text) → DirEntry → Bool
is_config_file environment f =
    not f.is_dir && (has_suffix f.name (codes ".yaml") && has_prefix f.name environment)

-- The entries that LoadConfig merges.
abbrev pub config_files : (environment : Text) → List DirEntry → List DirEntry
config_files environment [] = []
config_files environment (f ∷ fs) =
    let rest = config_files environment fs in
    if is_config_file environment f then f ∷ rest else rest

module _ {S D : Type 0} (v : Viper S D) where
  -- A file that cannot be read or merged is passed over with a warning.
  abbrev merged_with : S → Result S → S
  merged_with s (err _) = s
  merged_with s (ok merged) = merged

  abbrev read_with : S → Result S → S
  read_with s (err _) = s
  read_with s (ok settings) = merged_with s (v.merge s settings)

  unfoldable pub merge_file : (config_dir environment : Text) → DirEntry → S → S
  merge_file config_dir environment f s =
      if is_config_file environment f
      then read_with s (v.read_in_config (v.join config_dir f.name))
      else s

  unfoldable pub merge_files : (config_dir environment : Text) → List DirEntry → S → S
  unfolding merge_file
  merge_files config_dir environment [] s = s
  merge_files config_dir environment (f ∷ fs) s =
      merge_files config_dir environment fs (merge_file config_dir environment f s)

  unfoldable pub checked : Config D → Option Error → Result (Config D)
  checked c none = ok c
  checked c (some x) = err (wrap (codes "configuration validation failed") x)

  -- `config_directory` and `environment` are the values of the two variables. The later reloads of a
  -- watched file are left out.
  unfoldable pub load_config : (config_directory environment : Text) → Result (Config D)
  unfolding merge_files checked
  load_config config_directory environment = do
    let dir = or_text (codes "./config") config_directory
    let name = or_text (codes "development") environment
    files ← or_wrap (codes "failed to read config directory") (v.read_dir dir)
    c ←
        or_wrap (codes "failed to unmarshal config")
          (v.unmarshal (merge_files dir name files v.start))
    checked c (validate c)

  -- All of these files merged, in order.
  abbrev pub merge_all : (dir : Text) → List DirEntry → S → S
  merge_all dir [] s = s
  merge_all dir (f ∷ fs) s = merge_all dir fs (read_with s (v.read_in_config (v.join dir f.name)))

  merge_files-chosen :
      (dir environment : Text) (fs : List DirEntry) (s : S)
      → merge_files dir environment fs s ≡ merge_all dir (config_files environment fs) s
  unfolding merge_files merge_file
  merge_files-chosen dir environment [] s = refl
  merge_files-chosen dir environment (f ∷ fs) s =
      let read = read_with s (v.read_in_config (v.join dir f.name)) in
      elim (Bool-cases (is_config_file environment f)) [
        | inl chosen ↦ rw chosen (merge_files-chosen dir environment fs read)
        | inr passed ↦ rw passed (merge_files-chosen dir environment fs s)
      ]

  validate-none :
      (c : Config D)
      → validate c ≡ none
      → (is_empty c.framework.service_name ≡ false)
        × (is_empty c.app_name ≡ false)
        × (is_empty c.encryption_key ≡ false)
  unfolding validate complain missing_fields
  validate-none c h = ground (
    arith,
    h,
    Bool-cases (is_empty c.framework.service_name),
    Bool-cases (is_empty c.app_name),
    Bool-cases (is_empty c.encryption_key),
  )

  checked-ok : (c d : Config D) (o : Option Error) → checked c o ≡ ok d → (o ≡ none) × (c ≡ d)
  unfolding checked
  checked-ok c d none h = (refl, cc)
  checked-ok c d (some x) h = absurd (ground (arith, h))

  -- A configuration that LoadConfig returns has a service name, an application name and an encryption
  -- key, and is decoded from the defaults merged, in the order of the directory, with those of its
  -- `.yaml` files whose name begins with the environment.
  pub load_config-valid :
      (config_directory environment : Text) (c : Config D)
      → load_config config_directory environment ≡ ok c
      → (is_empty c.framework.service_name ≡ false)
        × (is_empty c.app_name ≡ false)
        × (is_empty c.encryption_key ≡ false)
        × ((fs : List DirEntry) × (v.read_dir (or_text (codes "./config") config_directory) ≡ ok fs)
            × (v.unmarshal (
                  merge_all
                    (or_text (codes "./config") config_directory)
                    (config_files (or_text (codes "development") environment) fs)
                    v.start)
                ≡ ok c))
  unfolding load_config
  load_config-valid config_directory environment c h =
      let dir = or_text (codes "./config") config_directory in
      let name = or_text (codes "development") environment in
      let read = or_wrap (codes "failed to read config directory") (v.read_dir dir) in
      let (fs, listed, rest) = bind-ok read _ c h in
      let load = v.unmarshal (merge_files dir name fs v.start) in
      let (loaded, decodes, last) =
        bind-ok (or_wrap (codes "failed to unmarshal config") load) (λ d. checked d (validate d)) c
          rest in
      let (valid, same) = checked-ok loaded c (validate loaded) last in
      let (has_service, has_app, has_key) = validate-none c (ap validate (sym same) ∙ valid) in
      (
        has_service,
        has_app,
        has_key,
        (
          fs,
          or_wrap-ok _ (v.read_dir dir) fs listed,
          ap v.unmarshal (sym (merge_files-chosen dir name fs v.start))
              ∙ or_wrap-ok _ load loaded decodes
              ∙ ap ok same,
        ),
      )
