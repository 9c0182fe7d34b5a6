-- ===== src/Patches/Sets/Loaded.antt =====
-- What a loaded set of src/autokernel/patches.py is like, and which ones are loaded.
use autokernel.Base.{
  Bool, true, false, not, ◌&&◌, ◌||◌, List, [], ◌∷◌, Option, none, Str, ◌≡◌, ◌⊎◌, member, all, All,
  is_some,
}
use autokernel.Base.Space.{is_nil}
use autokernel.Patches.Version.{KernelVersion, parse_version}
use autokernel.Patches.Sets.{
  PatchMeta, PatchSet, TomlValue, toml_text, toml_other, RawMeta, Result, failed, done,
  series_names, valid_kinds, valid_statuses, with_config, is_config_symbol,
}

abbrev pub is_done {ℓ} : {A : Type ℓ} → Result A → Bool
is_done (failed e) = false
is_done (done a) = true

-- Where the condition holds, there is a result with the property, and otherwise there is none.
abbrev pub Gives {ℓ κ} : {A : Type ℓ} → (A → Type κ) → Bool → Result A → Type (ℓ ⊔ κ)
Gives {A = A} P c r =
    ((c ≡ true) × (a : A) × (r ≡ done a) × P a) ⊎ ((c ≡ false) × (is_done r ≡ false))

-- An entry of `[patches]` is for a patch of the series, and its status is one of the four or none.
unfoldable pub is_listed : List Str → Str × PatchMeta → Bool
unfolding valid_statuses
is_listed names (file, m) = member file names && (is_nil m.status || member m.status valid_statuses)

abbrev is_text : TomlValue → Bool
is_text (toml_text v) = true
is_text toml_other = false

-- A key of `[config]` is a symbol, with or without its prefix, and its value a text.
unfoldable pub is_setting : Str × TomlValue → Bool
unfolding with_config is_config_symbol
is_setting (s, v) = is_text v && is_config_symbol (with_config s)

abbrev pub HasSymbols : List (Str × Str) → Type 0
HasSymbols = All (λ kv. is_config_symbol kv.0 ≡ true)

unfoldable pub is_version : Str → Bool
unfolding parse_version
is_version [] = true
is_version (c ∷ text) = is_some (parse_version (c ∷ text))

unfoldable pub version_of : Str → Option KernelVersion
unfolding parse_version
version_of [] = none
version_of (c ∷ text) = parse_version (c ∷ text)

module _ (is_file : Str → Bool) (name : Str) (raw : RawMeta) where
  -- All that `load_set` asks of the files.
  unfoldable pub is_loadable : Str → Bool
  unfolding valid_kinds series_names is_listed is_setting is_version
  is_loadable series =
      let names = series_names series in
      member raw.kind valid_kinds
      && (not (is_nil names)
          && (all is_file names
              && (all (is_listed names) raw.patches
                  && (all is_setting raw.config
                      && (is_version raw.min_version && is_version raw.max_version)))))

  -- The set has what the files say, and its configuration is of symbols.
  abbrev pub IsRead : List Str → PatchSet → Type 0
  IsRead names s =
      (s.name ≡ name)
      × (s.kind ≡ raw.kind)
      × (s.patches ≡ names)
      × (s.meta ≡ raw.patches)
      × HasSymbols s.config
      × (s.min_version ≡ version_of raw.min_version)
      × (s.max_version ≡ version_of raw.max_version)
