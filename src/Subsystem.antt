-- ===== src/Subsystem.antt =====
-- src/autokernel/subsystem.py: the subsystem of a CONFIG symbol.
pub mod Regex
mod Rules
pub mod Laws
mod Tests
use autokernel.Base.{
  ℕ, Bool, true, false, ◌||◌, List, [], ◌∷◌, ◌++◌, Option, none, some, Str, str, same, strip_prefix,
  any, ◌==◌, if◌then◌else◌, lookup,
}
use autokernel.Subsystem.Regex.{
  Alternative, word, last, Piece, lit, one_of, group, maybe, stop, Pattern, RuleTable,
}
use autokernel.Subsystem.Rules.{arch_rules, storage_rules, device_rules, rest_rules}

-- `$` stands at the end of the text, or before its last line break.
abbrev at_end : Str → Bool
at_end [] = true
at_end (c ∷ []) = c == b'\n'
at_end _ = false

-- What an alternative leaves of the text.
after : Alternative → Str → Option Str
unfolding strip_prefix
after (word w) s = strip_prefix w s
after (last w) s = elim (strip_prefix w s) [
  | none ↦ none
  | some r ↦ if at_end r then some r else none
]

-- `p.match`, with backtracking.
unfoldable pub match_pieces : List Piece → Str → Bool
unfolding after strip_prefix
match_pieces [] s = true
match_pieces (lit t ∷ ps) s = elim (strip_prefix t s) [ none ↦ false | some r ↦ match_pieces ps r ]
match_pieces (one_of cs ∷ ps) [] = false
match_pieces (one_of cs ∷ ps) (c ∷ s) = elim (any (λ d. d == c) cs) [
  | true ↦ match_pieces ps s
  | false ↦ false
]
match_pieces (group alts ∷ ps) s =
    any (λ a. elim (after a s) [ none ↦ false | some r ↦ match_pieces ps r ]) alts
match_pieces (maybe t ∷ ps) s =
    elim (strip_prefix t s) [ none ↦ false | some r ↦ match_pieces ps r ] || match_pieces ps s
match_pieces (stop ∷ ps) s = elim (at_end s) [ true ↦ match_pieces ps s | false ↦ false ]

-- `p.search` of a pattern with no `^`: at some position.
search_pieces : List Piece → Str → Bool
unfolding match_pieces
search_pieces ps [] = match_pieces ps []
search_pieces ps (c ∷ s) = match_pieces ps (c ∷ s) || search_pieces ps s

unfoldable pub search_pattern : Pattern → Str → Bool
unfolding search_pieces
search_pattern (true, ps) s = match_pieces ps s
search_pattern (false, ps) s = search_pieces ps s

-- The two loops: the first rule with a pattern that is found.
unfoldable pub first_rule : RuleTable → Str → Option Str
unfolding search_pattern
first_rule [] name = none
first_rule ((subsystem, patterns) ∷ rest) name =
    if any (λ p. search_pattern p name) patterns then some subsystem else first_rule rest name

-- `symbol[7:] if symbol.startswith("CONFIG_") else symbol`
unfoldable pub bare_name : Str → Str
unfolding strip_prefix
bare_name symbol = elim (strip_prefix (str "CONFIG_") symbol) [ none ↦ symbol | some r ↦ r ]

unfoldable pub rules_def : RuleTable
rules_def = arch_rules ++ (storage_rules ++ (device_rules ++ (rest_rules)))

unfoldable pub classify : Str → Str
classify symbol = elim (first_rule rules_def (bare_name symbol)) [
  | none ↦ str "misc"
  | some subsystem ↦ subsystem
]

-- `out.setdefault(k, []).append(s)`
unfoldable pub append_at : Str → Str → List (Str × List Str) → List (Str × List Str)
append_at k s [] = (k, s ∷ []) ∷ []
append_at k s ((j, v) ∷ m) = if same k j then (j, v ++ s ∷ []) ∷ m else (j, v) ∷ append_at k s m

group_from : List (Str × List Str) → List Str → List (Str × List Str)
group_from out [] = out
group_from out (s ∷ symbols) = group_from (append_at (classify s) s out) symbols

unfoldable pub group_by_subsystem : List Str → List (Str × List Str)
unfolding group_from append_at
group_by_subsystem = group_from []
