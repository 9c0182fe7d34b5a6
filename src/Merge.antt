-- ===== src/Merge.antt =====
-- src/autokernel/merge.py: a fragment merged into a `.config`, and the check of the result.

pub mod Validation
pub mod Format
pub mod Lines
pub mod Lookup
pub mod Text
pub mod Clean
pub mod Safety
pub mod Again
mod Tests
use autokernel.Base.{
  ◌==◌, ℕ, ◌+◌, Bool, true, false, not, ◌&&◌, ◌||◌, List, [], ◌∷◌, ◌++◌, Option, none, some, Str,
  str, same, member, lookup, if◌then◌else◌, all, keep, map, join, starts_with, sorted, suc,
}
use autokernel.Base.Space.{is_nil, strip, strip_quotes, splitlines, drop_right}
use autokernel.Base.Dict.{set_key, set_all}
use autokernel.Kfrag.Parser.{unset_symbol, set_symbol, ParsedKfrag, parse_kfrag}
use autokernel.Kfrag.Format.{all_digits}

abbrev pub normalize_set : Option (Str × Str) → Option (Str × Str)
normalize_set none = none
normalize_set (some (symbol, value)) = some (symbol, strip_quotes (strip value))

abbrev pub normalize_line : Option Str → Option (Str × Str) → Option (Str × Str)
normalize_line (some symbol) _ = some (symbol, str "n")
normalize_line none set = normalize_set set

abbrev pub is_feed : ℕ → Bool
is_feed c = c == 10

-- `_normalize_value(line)`
unfoldable pub normalize_value : Str → Option (Str × Str)
normalize_value line =
    let s = drop_right is_feed line in normalize_line (unset_symbol s) (set_symbol s)

-- `_format_assignment(symbol, value)`
unfoldable pub format_value : Str → Str → Str
format_value symbol value =
    if same value (str "n")
    then str "# " ++ (symbol ++ str " is not set")
    else if same value (str "y") || same value (str "m") || all_digits value
    then symbol ++ (b'=' ∷ value)
    else if starts_with value (str "0x")
    then symbol ++ (b'=' ∷ value)
    else symbol ++ (b'=' ∷ b'"' ∷ (value ++ b'"' ∷ []))

pub record MergeReport : Type 0 where
  pub overrides : List (Str × Str × Str)
  pub no_ops : List Str
  pub fragment_only : List Str
  pub base_only_count : ℕ

-- The local variables of the loop over the base.
pub record Merging : Type 0 where
  pub report : MergeReport
  pub out_lines : List Str
  pub seen_in_base : List Str

-- One line of the base that sets a symbol, by the fragment's value for it.
abbrev pub merge_symbol : Str → Str → Str → Option Str → Merging → Merging
merge_symbol line symbol base none m = record m {
  report = record (m.report) { base_only_count = suc m.report.base_only_count };
  out_lines = m.out_lines ++ line ∷ [];
}
merge_symbol line symbol base (some value) m =
    if same value base
    then record m {
      report = record (m.report) { no_ops = m.report.no_ops ++ symbol ∷ [] };
      out_lines = m.out_lines ++ line ∷ [];
      seen_in_base = symbol ∷ m.seen_in_base;
    }
    else record m {
      report = record (m.report) { overrides = m.report.overrides ++ (symbol, base, value) ∷ [] };
      out_lines = m.out_lines ++ format_value symbol value ∷ [];
      seen_in_base = symbol ∷ m.seen_in_base;
    }

abbrev pub merge_normalized : List (Str × Str) → Str → Option (Str × Str) → Merging → Merging
merge_normalized frag line none m = record m { out_lines = m.out_lines ++ line ∷ [] }
merge_normalized frag line (some (symbol, base)) m =
    merge_symbol line symbol base (lookup symbol frag) m

-- One round of the loop.
unfoldable pub merge_line : List (Str × Str) → Str → Merging → Merging
unfolding format_value
merge_line frag line m = merge_normalized frag line (normalize_value line) m

unfoldable pub merge_lines : List (Str × Str) → List Str → Merging → Merging
unfolding merge_line
merge_lines frag [] m = m
merge_lines frag (line ∷ lines) m = merge_lines frag lines (merge_line frag line m)

abbrev pub disabled : List Str → List (Str × Str)
disabled = map (λ symbol. (symbol, str "n"))

-- `frag_values`
unfoldable pub frag_values : ParsedKfrag → List (Str × Str)
frag_values parsed = set_all parsed.assignments (set_all (disabled parsed.disables) [])

abbrev pub keys : List (Str × Str) → List Str
keys = map (λ kv. kv.0)

abbrev pub value_or_empty : Option Str → Str
value_or_empty none = []
value_or_empty (some v) = v

abbrev pub append_title : Str
append_title = str "# ── autokernel: appended from kfrag ─────────────────"

-- The lines for symbols that the base has not.
abbrev pub appended_lines : List (Str × Str) → List Str → List Str
appended_lines frag [] = []
appended_lines frag (s ∷ symbols) =
    [] ∷ append_title ∷ map (λ x. format_value x (value_or_empty (lookup x frag))) (s ∷ symbols)

abbrev pub nothing_merged : Merging
nothing_merged = record {
  report = record { overrides = []; no_ops = []; fragment_only = []; base_only_count = 0 };
  out_lines = [];
  seen_in_base = [];
}

-- `sorted(s for s in frag_values if s not in seen_in_base)`
abbrev pub unseen : List (Str × Str) → List Str → List Str
unseen frag seen = sorted (keep (λ s. not (member s seen)) (keys frag))

-- The lines of the merged text, and the report.
unfoldable pub merged_lines : List (Str × Str) → List Str → List Str × MergeReport
unfolding merge_lines
merged_lines frag base =
    let m = merge_lines frag base nothing_merged in
    let symbols = unseen frag m.seen_in_base in
    (m.out_lines ++ appended_lines frag symbols, record (m.report) { fragment_only = symbols })

-- `merge_kfrag` on the two texts
unfoldable pub merge_kfrag : Str → Str → Str × MergeReport
unfolding merged_lines frag_values
merge_kfrag base_text kfrag_text =
    let (lines, report) =
      merged_lines (frag_values (parse_kfrag kfrag_text)) (splitlines base_text) in
    (join (b'\n' ∷ []) lines ++ b'\n' ∷ [], report)

abbrev pub set_normalized : Option (Str × Str) → List (Str × Str) → List (Str × Str)
set_normalized none m = m
set_normalized (some (symbol, value)) m = set_key symbol value m

unfoldable pub read_config : List Str → List (Str × Str) → List (Str × Str)
read_config [] m = m
read_config (line ∷ lines) m = read_config lines (set_normalized (normalize_value line) m)

-- `_config_text_to_dict(text)`
unfoldable pub config_text_to_dict : Str → List (Str × Str)
unfolding read_config
config_text_to_dict text = read_config (splitlines text) []
