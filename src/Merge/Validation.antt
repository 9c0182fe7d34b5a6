-- ===== src/Merge/Validation.antt =====
-- `validate_load_bearing` of src/autokernel/merge.py.
use autokernel.Merge.{config_text_to_dict}
use autokernel.Base.{
  Bool, true, ◌||◌, List, [], ◌∷◌, Option, none, some, Str, str, same, lookup, if◌then◌else◌,
}

pub record ValidationFinding : Type 0 where
  pub symbol : Str
  pub expected_in : Str
  pub actual_value : Str
  pub reason : Str

-- `d.get(symbol, "missing")`
abbrev pub get_or_missing : Option Str → Str
get_or_missing none = str "missing"
get_or_missing (some v) = v

abbrev pub is_on : Str → Bool
is_on v = same v (str "y") || same v (str "m")

-- `base is None`, or the base had the symbol on
abbrev pub was_on : Option (List (Str × Str)) → Str → Bool
was_on none symbol = true
was_on (some base) symbol = is_on (get_or_missing (lookup symbol base))

unfoldable pub find_downgrades :
    List (Str × Str) → Option (List (Str × Str)) → List (Str × Str) → List ValidationFinding
find_downgrades merged base [] = []
find_downgrades merged base ((symbol, reason) ∷ symbols) =
    let rest = find_downgrades merged base symbols in
    let value = get_or_missing (lookup symbol merged) in
    if is_on value
    then rest
    else if was_on base symbol
    then record { symbol = symbol; expected_in = str "y|m"; actual_value = value; reason = reason }
      ∷ rest
    else rest

-- `_config_text_to_dict(base_config_text) if base_config_text else None`
abbrev pub base_dict : Option Str → Option (List (Str × Str))
base_dict none = none
base_dict (some []) = none
base_dict (some (c ∷ text)) = some (config_text_to_dict (c ∷ text))

unfoldable pub validate_load_bearing : Str → List (Str × Str) → Option Str → List ValidationFinding
unfolding find_downgrades
validate_load_bearing merged_text symbols base_text =
    find_downgrades (config_text_to_dict merged_text) (base_dict base_text) symbols
