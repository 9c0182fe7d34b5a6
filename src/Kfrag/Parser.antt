-- ===== src/Kfrag/Parser.antt =====
-- `parse_kfrag` of src/autokernel/kfrag.py, on the text of the file.
use autokernel.Base.{
  ℕ, Bool, false, ◌&&◌, ◌||◌, List, [], ◌∷◌, ◌++◌, Option, none, some, Str, str, leb, ◌==◌,
  if◌then◌else◌, strip_prefix, starts_with,
}
use autokernel.Base.Space.{is_space, drop_left, is_nil, rstrip, strip, strip_quotes, splitlines}
use autokernel.Base.Dict.{set_key}

-- `[A-Z0-9_]`
unfoldable pub is_symbol_char : ℕ → Bool
is_symbol_char c = (leb b'A' c && leb c b'Z') || (leb b'0' c && leb c b'9') || c == b'_'

-- The characters that a greedy class takes from the left.
unfoldable pub take_left : (ℕ → Bool) → Str → Str
take_left p [] = []
take_left p (c ∷ s) = if p c then c ∷ take_left p s else []

-- `CONFIG_[A-Z0-9_]+` and what stands behind it.
unfoldable pub config_symbol : Str → Option (Str × Str)
unfolding take_left
config_symbol s = elim (strip_prefix (str "CONFIG_") s) [
  | none ↦ none
  | some t ↦
      let word = take_left is_symbol_char t in
      if is_nil word then none else some (str "CONFIG_" ++ word, drop_left is_symbol_char t)
]

abbrev blank_behind : Option Str → Bool
blank_behind none = false
blank_behind (some t) = is_nil (drop_left is_space t)

-- `\s+is not set\s*$`
unfoldable pub is_not_set_tail : Str → Bool
is_not_set_tail [] = false
is_not_set_tail (c ∷ s) =
    is_space c && blank_behind (strip_prefix (str "is not set") (drop_left is_space s))

abbrev unset_tail : Option (Str × Str) → Option Str
unset_tail none = none
unset_tail (some (symbol, tail)) = if is_not_set_tail tail then some symbol else none

-- `_NOT_SET_RE.match(s)`, its group
unfoldable pub unset_symbol : Str → Option Str
unset_symbol [] = none
unset_symbol (c ∷ s) = if c == b'#' then unset_tail (config_symbol (drop_left is_space s)) else none

abbrev pub set_tail : Option (Str × Str) → Option (Str × Str)
set_tail none = none
set_tail (some (symbol, [])) = none
set_tail (some (symbol, c ∷ value)) = if c == b'=' then some (symbol, value) else none

-- `_SET_RE.match(s)`, its groups, on a text with no line feed
unfoldable pub set_symbol : Str → Option (Str × Str)
set_symbol s = set_tail (config_symbol s)

pub record ParsedKfrag : Type 0 where
  pub header_lines : List Str
  pub disables : List Str
  pub assignments : List (Str × Str)

-- The last branch of the loop.
abbrev pub parse_set : Option (Str × Str) → ParsedKfrag → ParsedKfrag
parse_set none out = out
parse_set (some (symbol, value)) out = record out {
  assignments = set_key symbol (strip_quotes (strip value)) out.assignments;
}

-- The branches for a stripped line that is not empty.
abbrev pub parse_stripped : Str → Option Str → ParsedKfrag → ParsedKfrag
parse_stripped s (some symbol) out = record out { disables = out.disables ++ symbol ∷ [] }
parse_stripped s none out =
    if starts_with s (str "#")
    then record out { header_lines = out.header_lines ++ s ∷ [] }
    else parse_set (set_symbol s) out

-- One round of the loop, on the line without the spaces at its end.
unfoldable pub parse_line : Str → ParsedKfrag → ParsedKfrag
parse_line [] out = out
parse_line (c ∷ s) out = parse_stripped (c ∷ s) (unset_symbol (c ∷ s)) out

unfoldable pub parse_lines : List Str → ParsedKfrag → ParsedKfrag
unfolding parse_line
parse_lines [] out = out
parse_lines (line ∷ lines) out = parse_lines lines (parse_line (rstrip line) out)

abbrev pub nothing_parsed : ParsedKfrag
nothing_parsed = record { header_lines = []; disables = []; assignments = [] }

unfoldable pub parse_kfrag : Str → ParsedKfrag
unfolding parse_lines
parse_kfrag text = parse_lines (splitlines text) nothing_parsed
