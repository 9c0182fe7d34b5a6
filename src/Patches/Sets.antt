-- ===== src/Patches/Sets.antt =====
-- `PatchSet`, `load_set` and `resolve` of src/autokernel/patches.py. What tomllib reads of meta.toml
-- and which files there are is given.
pub mod Loaded
use autokernel.Base.{
  ℕ, Bool, true, false, not, ◌&&◌, ◌||◌, ◌==◌, leb, List, [], ◌∷◌, ◌++◌, map, Option, none, some,
  Str, str, same, member, keep, all, starts_with, strip_prefix, lookup, if◌then◌else◌,
}
use autokernel.Base.Space.{is_nil, strip, splitlines, is_space, lines_from, drop_left, drop_right}
use autokernel.Base.Dict.{set_key}
use autokernel.Patches.Version.{KernelVersion, parse_version, at_least, below}

unfoldable pub valid_kinds : List Str
valid_kinds = str "upstream-pending" ∷ str "out-of-tree" ∷ str "backport" ∷ []

unfoldable pub valid_statuses : List Str
valid_statuses = str "posted" ∷ str "accepted" ∷ str "merged" ∷ str "out-of-tree" ∷ []

pub record PatchMeta : Type 0 where
  pub status : Str
  pub link : Str
  pub upstream_subject : Str

pub record PatchSet : Type 0 where
  pub name : Str
  pub description : Str
  pub kind : Str
  pub patches : List Str
  pub meta : List (Str × PatchMeta)
  pub min_version : Option KernelVersion
  pub max_version : Option KernelVersion
  pub config : List (Str × Str)

unfoldable pub applies_to : PatchSet → KernelVersion → Bool
unfolding at_least below
applies_to s v = at_least s.min_version v && below s.max_version v

-- A value of the table `[config]`
pub data TomlValue : Type 0 where
  toml_text : Str → TomlValue
  toml_other : TomlValue

-- meta.toml, with what its keys have where they are absent
pub record RawMeta : Type 0 where
  pub kind : Str
  pub description : Str
  pub patches : List (Str × PatchMeta)
  pub config : List (Str × TomlValue)
  pub min_version : Str
  pub max_version : Str

pub data PatchError : Type 0 where
  bad_kind : Str → PatchError
  empty_series : PatchError
  patch_not_found : Str → PatchError
  not_in_series : Str → PatchError
  bad_status : Str → PatchError
  bad_config : Str → PatchError
  unparseable_version : Str → PatchError
  unknown_patch_sets : List Str → PatchError

pub data Result {ℓ} (A : Type ℓ) : Type ℓ where
  failed : PatchError → Result A
  done : A → Result A

abbrev pub and_then {ℓ κ} : {A : Type ℓ} {B : Type κ} → Result A → (A → Result B) → Result B
and_then (failed e) f = failed e
and_then (done a) f = f a

unfoldable pub before_hash : Str → Str
before_hash [] = []
before_hash (c ∷ s) = if c == b'#' then [] else c ∷ before_hash s

unfoldable pub series_names : Str → List Str
unfolding before_hash lines_from drop_left drop_right is_space
series_names text =
    keep (λ n. not (is_nil n)) (map (λ line. strip (before_hash line)) (splitlines text))

unfoldable pub find_patches : (Str → Bool) → List Str → Result (List Str)
find_patches is_file [] = done []
find_patches is_file (n ∷ names) =
    let rest = find_patches is_file names in
    if is_file n then and_then rest (λ ps. done (n ∷ ps)) else failed (patch_not_found n)

unfoldable pub load_meta : List Str → List (Str × PatchMeta) → Result (List (Str × PatchMeta))
unfolding valid_statuses
load_meta names [] = done []
load_meta names ((file, m) ∷ table) =
    let rest = load_meta names table in
    if not (member file names)
    then failed (not_in_series file)
    else if not (is_nil m.status) && not (member m.status valid_statuses)
    then failed (bad_status m.status)
    else and_then rest (λ ms. done ((file, m) ∷ ms))

abbrev pub is_symbol_char : ℕ → Bool
is_symbol_char c = (leb b'A' c && leb c b'Z') || (leb b'0' c && leb c b'9') || c == b'_'

abbrev pub is_symbol_tail : Option Str → Bool
is_symbol_tail none = false
is_symbol_tail (some []) = false
is_symbol_tail (some (c ∷ s)) = all is_symbol_char (c ∷ s)

-- `re.fullmatch(r"CONFIG_[A-Z0-9_]+", sym)`
unfoldable pub is_config_symbol : Str → Bool
unfolding strip_prefix
is_config_symbol s = is_symbol_tail (strip_prefix (str "CONFIG_") s)

unfoldable pub with_config : Str → Str
unfolding starts_with
with_config s = if starts_with s (str "CONFIG_") then s else str "CONFIG_" ++ s

unfoldable pub load_value : Str → TomlValue → Result (Str × Str)
unfolding is_config_symbol
load_value symbol toml_other = failed (bad_config symbol)
load_value symbol (toml_text v) =
    if is_config_symbol symbol then done (symbol, v) else failed (bad_config symbol)

-- The loop over `[config]`, with the dictionary so far.
unfoldable pub load_config : List (Str × TomlValue) → List (Str × Str) → Result (List (Str × Str))
unfolding load_value with_config
load_config [] config = done config
load_config ((s, v) ∷ table) config =
    and_then (load_value (with_config s) v) (λ kv. load_config table (set_key kv.0 kv.1 config))

abbrev pub parsed_or_error : Str → Option KernelVersion → Result (Option KernelVersion)
parsed_or_error text none = failed (unparseable_version text)
parsed_or_error text (some v) = done (some v)

-- `parse_version(raw[key]) if raw.get(key) else None`
unfoldable pub load_version : Str → Result (Option KernelVersion)
unfolding parse_version
load_version [] = done none
load_version (c ∷ text) = parsed_or_error (c ∷ text) (parse_version (c ∷ text))

module _ (is_file : Str → Bool) (name : Str) (raw : RawMeta) where
  unfoldable pub load_names : List Str → Result PatchSet
  unfolding find_patches load_meta load_config load_version
  load_names [] = failed empty_series
  load_names (n ∷ names) = and_then (find_patches is_file (n ∷ names)) (λ patches.
      and_then (load_meta (n ∷ names) raw.patches) (λ meta.
        and_then (load_config raw.config []) (λ config.
          and_then (load_version raw.min_version) (λ low.
            and_then (load_version raw.max_version) (λ high. done (record {
              name = name;
              description = raw.description;
              kind = raw.kind;
              patches = patches;
              meta = meta;
              min_version = low;
              max_version = high;
              config = config;
            }))))))

  unfoldable pub load_set : Str → Result PatchSet
  unfolding load_names series_names valid_kinds
  load_set series =
      if not (member raw.kind valid_kinds)
      then failed (bad_kind raw.kind)
      else load_names (series_names series)

abbrev pub named : List PatchSet → List (Str × PatchSet)
named [] = []
named (s ∷ sets) = (s.name, s) ∷ named sets
