-- ===== src/World/Exceptions.antt =====
-- The exceptions table of src/autokernel/world/triage.py, as the list that the file holds.
pub mod Laws
use autokernel.Base.{
  ℕ, Bool, true, false, not, ◌&&◌, ◌||◌, List, [], ◌∷◌, ◌++◌, Option, none, some, Str, str,
  if◌then◌else◌, same, keep, dedupe, dedupe_from, text_le,
}
use autokernel.World.Models.{PackageOverride}

-- `list(dict.fromkeys([*a, *b]))`
abbrev pub union : List Str → List Str → List Str
union a b = dedupe (a ++ b)

-- `new.force_compiler or old.force_compiler`
abbrev pub or_compiler : Option Str → Option Str → Option Str
or_compiler (some (c ∷ s)) old = some (c ∷ s)
or_compiler (some []) old = old
or_compiler none old = old

unfoldable pub merge_overrides : PackageOverride → PackageOverride → PackageOverride
unfolding dedupe_from
merge_overrides old new = record {
  source_pkg = new.source_pkg;
  strip_flags = union old.strip_flags new.strip_flags;
  add_flags = union old.add_flags new.add_flags;
  build_options = union old.build_options new.build_options;
  strip_build_options = union old.strip_build_options new.strip_build_options;
  force_compiler = or_compiler new.force_compiler old.force_compiler;
  profiles = union old.profiles new.profiles;
  patches = union old.patches new.patches;
  use_stock = new.use_stock || old.use_stock;
  reason =
      if same old.reason new.reason then new.reason else old.reason ++ (str " + " ++ new.reason);
  provenance = new.provenance;
}

-- `next((o for o in existing if o.source_pkg == source), None)`
unfoldable pub find_override : Str → List PackageOverride → Option PackageOverride
find_override source [] = none
find_override source (o ∷ os) = if same o.source_pkg source then some o else find_override source os

-- `sorted(current, key=lambda o: o.source_pkg)`, which keeps the order of equal keys
unfoldable pub insert_by_source : PackageOverride → List PackageOverride → List PackageOverride
insert_by_source o [] = o ∷ []
insert_by_source o (p ∷ ps) =
    if text_le o.source_pkg p.source_pkg then o ∷ p ∷ ps else p ∷ insert_by_source o ps

unfoldable pub sort_by_source : List PackageOverride → List PackageOverride
unfolding insert_by_source
sort_by_source [] = []
sort_by_source (o ∷ os) = insert_by_source o (sort_by_source os)

-- `merge_overrides(prior, override) if prior else override`
abbrev pub merged_with : Option PackageOverride → PackageOverride → PackageOverride
merged_with none new = new
merged_with (some old) new = merge_overrides old new

-- The table after `save_exception`.
unfoldable pub save_exception : List PackageOverride → PackageOverride → List PackageOverride
unfolding sort_by_source find_override merge_overrides
save_exception existing new =
    let merged = merged_with (find_override new.source_pkg existing) new in
    sort_by_source (keep (λ o. not (same o.source_pkg new.source_pkg)) existing ++ merged ∷ [])
