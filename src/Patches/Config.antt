-- ===== src/Patches/Config.antt =====
-- `merged_config`, `apply_config` and `config_mismatches` of src/autokernel/patches.py, on the text of
-- the `.config`.
pub mod Applied
pub mod Merged
use autokernel.Base.{
  Bool, true, false, not, ◌&&◌, ◌||◌, List, [], ◌∷◌, ◌++◌, map, Option, none, some, Str, str, same,
  member, keep, any, starts_with, strip_prefix, join, lookup, if◌then◌else◌,
}
use autokernel.Base.Space.{is_nil, splitlines, lines_from}
use autokernel.Base.Dict.{set_key}
use autokernel.Kfrag.Parser.{config_symbol, set_symbol}
use autokernel.Kfrag.Writer.{unset_line, set_line}
use autokernel.Patches.Sets.{PatchSet}

-- Two sets that want different values of a symbol.
pub record Clash : Type 0 where
  pub symbol : Str
  pub first_set : Str
  pub first_value : Str
  pub second_set : Str
  pub second_value : Str

pub data Union : Type 0 where
  clashing : Clash → Union
  union : List (Str × Str) → List (Str × Str) → Union

abbrev pub origin_of : Option Str → Str
origin_of none = []
origin_of (some name) = name

-- The value of the symbol so far, and the next.
abbrev pub clashes : Option Str → Str → Bool
clashes none v = false
clashes (some w) v = not (same w v)

abbrev pub value_or_nil : Option Str → Str
value_or_nil none = []
value_or_nil (some w) = w

-- The loop over one set, with `out` and `origin`.
unfoldable pub merge_set : Str → List (Str × Str) → List (Str × Str) → List (Str × Str) → Union
unfolding set_key
merge_set name [] out origin = union out origin
merge_set name ((s, v) ∷ config) out origin =
    let on = merge_set name config (set_key s v out) (set_key s name origin) in
    if clashes (lookup s out) v
    then clashing (record {
      symbol = s;
      first_set = origin_of (lookup s origin);
      first_value = value_or_nil (lookup s out);
      second_set = name;
      second_value = v;
    })
    else on

abbrev pub go_on : Union → (List (Str × Str) → List (Str × Str) → Union) → Union
go_on (clashing c) f = clashing c
go_on (union out origin) f = f out origin

unfoldable pub merge_sets : List PatchSet → List (Str × Str) → List (Str × Str) → Union
unfolding merge_set
merge_sets [] out origin = union out origin
merge_sets (ps ∷ sets) out origin =
    go_on (merge_set ps.name ps.config out origin) (λ out1 origin1. merge_sets sets out1 origin1)

unfoldable pub merged_config : List PatchSet → Union
unfolding merge_sets
merged_config sets = merge_sets sets [] []

-- The line sets one of the symbols, or unsets it.
unfoldable pub sets_override : List (Str × Str) → Str → Bool
unfolding starts_with same
sets_override overrides line =
    any (λ kv. starts_with line (kv.0 ++ str "=") || same line (unset_line kv.0)) overrides

unfoldable pub override_line : Str × Str → Str
override_line (s, v) = if same v (str "n") then unset_line s else set_line s v

unfoldable pub overridden_lines : List (Str × Str) → List Str → List Str
unfolding sets_override override_line
overridden_lines overrides lines =
    keep (λ line. not (sets_override overrides line)) lines ++ map override_line overrides

unfoldable pub apply_config : Str → List (Str × Str) → Str
unfolding overridden_lines join lines_from
apply_config text [] = text
apply_config text (o ∷ overrides) =
    join (b'\n' ∷ []) (overridden_lines (o ∷ overrides) (splitlines text)) ++ b'\n' ∷ []

-- `^# (CONFIG_[A-Z0-9_]+) is not set$`, its group
abbrev pub exact_unset : Option (Str × Str) → Option Str
exact_unset none = none
exact_unset (some (symbol, tail)) = if same tail (str " is not set") then some symbol else none

abbrev pub behind_mark : Option Str → Option Str
unfolding config_symbol
behind_mark none = none
behind_mark (some s) = exact_unset (config_symbol s)

unfoldable pub read_unset : Str → Option Str
unfolding strip_prefix behind_mark
read_unset line = behind_mark (strip_prefix (str "# ") line)

abbrev pub with_set : Option (Str × Str) → List (Str × Str) → List (Str × Str)
with_set none have = have
with_set (some (s, v)) have = set_key s v have

abbrev pub with_unset : Option Str → List (Str × Str) → List (Str × Str)
with_unset none have = have
with_unset (some s) have = set_key s (str "n") have

-- The loop over the lines.
unfoldable pub read_have : List Str → List (Str × Str) → List (Str × Str)
unfolding set_symbol read_unset
read_have [] have = have
read_have (line ∷ lines) have =
    read_have lines (with_unset (read_unset line) (with_set (set_symbol line) have))

-- `have.get(sym, "n")`
abbrev pub get_or_n : Option Str → Str
get_or_n none = str "n"
get_or_n (some v) = v

-- The symbols with the values wanted and got, of which the messages are made.
unfoldable pub config_mismatches : Str → List (Str × Str) → List (Str × Str × Str)
unfolding read_have lines_from
config_mismatches text overrides =
    let have = read_have (splitlines text) [] in
    map (λ kv. (kv.0, kv.1, get_or_n (lookup kv.0 have)))
      (keep (λ kv. not (same (get_or_n (lookup kv.0 have)) kv.1)) overrides)
