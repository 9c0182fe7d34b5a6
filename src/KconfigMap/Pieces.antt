-- ===== src/KconfigMap/Pieces.antt =====
-- The templates of the path table of src/autokernel/kconfig_map.py.
use autokernel.Base.{List, Str}

-- A template is cut at its `{name}` and `{fsdir}` fields.
pub data Piece : Type 0 where
  lit : Str → Piece
  name fsdir : Piece

abbrev pub Template : Type 0
Template = List Piece
