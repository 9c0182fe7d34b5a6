-- ===== src/Subsystem/Regex.antt =====
-- The regular expressions that src/autokernel/subsystem.py uses, as data.
use autokernel.Base.{Bool, List, Str}

-- An alternative of a group: a word, or a word with `$` behind it.
pub data Alternative : Type 0 where
  word : Str → Alternative
  last : Str → Alternative

-- A piece of a pattern: a literal, `[...]`, `(a|b|c$)`, `(a)?` or `$`.
pub data Piece : Type 0 where
  lit : Str → Piece
  one_of : Str → Piece
  group : List Alternative → Piece
  maybe : Str → Piece
  stop : Piece

-- A leading `^`, and the pieces behind it.
abbrev pub Pattern : Type 0
Pattern = Bool × List Piece

abbrev pub RuleTable : Type 0
RuleTable = List (Str × List Pattern)
