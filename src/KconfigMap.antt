-- ===== src/KconfigMap.antt =====
-- src/autokernel/kconfig_map.py: the CONFIG symbols that a kernel module may belong to.
mod Pieces
mod LaterPaths
mod Table
pub mod Laws
mod Tests
pub use Pieces.{Piece, lit, name, fsdir, Template}
use Table.{path_table}
use autokernel.Base.{
  ℕ, suc, ◌∷◌, [], List, Str, str, ◌++◌, Option, none, some, Bool, true, false, ◌||◌, ◌&&◌, upper,
  replace_code, starts_with, ends_with, dedupe, dedupe_from, lookup, member, same, join,
  if◌then◌else◌, ◌==◌,
}

-- `name.upper().replace("-", "_")`
pub normalize : Str → Str
unfolding upper replace_code
normalize s = replace_code b'-' b'_' (upper s)

-- `tmpl.format(name=..., fsdir=...)`
render : Str → Str → Template → Str
render n d [] = []
render n d (lit t ∷ ps) = t ++ render n d ps
render n d (name ∷ ps) = n ++ render n d ps
render n d (fsdir ∷ ps) = d ++ render n d ps

pub config_of : Str → Str
config_of s = str "CONFIG_" ++ s

render_all : Str → Str → List Template → List Str
unfolding render config_of
render_all n d [] = []
render_all n d (t ∷ ts) = config_of (render n d t) ∷ render_all n d ts

-- The loop over the table: only the first prefix that fits gives candidates.
first_path : Str → Str → Str → List (Str × List Template) → List Str
unfolding render_all starts_with
first_path n d path [] = []
first_path n d path ((prefix, templates) ∷ rest) =
    if starts_with path prefix then render_all n d templates else first_path n d path rest

-- `source_path.split("/")`; `word` is the part being read.
split_slash : Str → Str → List Str
split_slash word [] = word ∷ []
split_slash word (c ∷ s) =
    let next = word ∷ split_slash [] s in
    let more = split_slash (word ++ c ∷ []) s in if c == b'/' then next else more

-- `_normalize(parts[1]) if len(parts) >= 2 and parts[0] == "fs" else ""`
fs_directory : List Str → Str
unfolding normalize same
fs_directory (top ∷ next ∷ _) = if same top (str "fs") then normalize next else []
fs_directory _ = []

pub from_path : Str → Option Str → List Str
unfolding first_path fs_directory split_slash
from_path n none = []
from_path n (some []) = []
from_path n (some path) =
    first_path n (fs_directory (split_slash [] path)) (path ++ str "/") path_table

-- `name_u[:-4]`
drop_last_four : Str → Str
drop_last_four (a ∷ b ∷ c ∷ d ∷ e ∷ s) = a ∷ drop_last_four (b ∷ c ∷ d ∷ e ∷ s)
drop_last_four _ = []

unfoldable pub candidate_configs : Str → Option Str → List Str
unfolding normalize config_of from_path drop_last_four dedupe_from ends_with
candidate_configs module_name source_path =
    let name_u = normalize module_name in
    dedupe (
      from_path name_u source_path
      ++ (config_of name_u ∷ [])
      ++ (if ends_with module_name (str "fs") || ends_with module_name (str "_fs")
          then config_of (name_u ++ str "_FS") ∷ []
          else [])
      ++ (if ends_with module_name (str "_mod")
          then config_of (drop_last_four name_u) ∷ []
          else []))

-- `running_config.get(cand) in {"y", "m"}`
abbrev pub is_enabled : Option Str → Bool
is_enabled none = false
is_enabled (some v) = same v (str "y") || same v (str "m")

-- The loop of `resolve_module_to_config`, with the default `accept_values`.
pub first_enabled : List (Str × Str) → List Str → Option Str
unfolding same
first_enabled running [] = none
first_enabled running (cand ∷ cands) =
    if is_enabled (lookup cand running) then some cand else first_enabled running cands

unfoldable pub resolve_module_to_config : Str → Option Str → List (Str × Str) → Option Str
unfolding first_enabled candidate_configs
resolve_module_to_config module_name source_path running =
    first_enabled running (candidate_configs module_name source_path)
