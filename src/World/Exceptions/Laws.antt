-- ===== src/World/Exceptions/Laws.antt =====
-- What the exceptions table keeps.
use autokernel.Base.{
  true, not, List, [], ◌∷◌, ◌++◌, Option, none, some, Str, ◌≡◌, refl, ◌∙◌, arith, same, same_iff,
  if◌then◌else◌, Bool-cases, inl, inr, keep, text_le, text_le_total,
}
use autokernel.World.Models.{PackageOverride}
use autokernel.World.Exceptions.{
  merge_overrides, find_override, insert_by_source, sort_by_source, merged_with, save_exception,
}

text_le_self : (s : Str) → text_le s s ≡ true
text_le_self s = elim (Bool-cases (text_le s s)) [ inl le ↦ le | inr over ↦ text_le_total s s over ]

find_override-insert :
    (s : Str) (o : PackageOverride) (os : List PackageOverride)
    → find_override s (insert_by_source o os) ≡ find_override s (o ∷ os)
unfolding find_override insert_by_source
find_override-insert s o [] = refl
find_override-insert s o (p ∷ os) = ground (
  arith,
  same_iff o.source_pkg s,
  same_iff p.source_pkg s,
  text_le_self s,
  find_override-insert s o os,
)

find_override-sort :
    (s : Str) (os : List PackageOverride) → find_override s (sort_by_source os) ≡ find_override s os
unfolding sort_by_source find_override
find_override-sort s [] = refl
find_override-sort s (o ∷ os) =
    find_override-insert s o (sort_by_source os)
    ∙ unfold find_override in ground (arith, find_override-sort s os)

find_override-append :
    (s source : Str) (os : List PackageOverride) (merged : PackageOverride)
    → merged.source_pkg ≡ source
    → find_override s (keep (λ o. not (same o.source_pkg source)) os ++ merged ∷ [])
      ≡ (if same source s then some merged else find_override s os)
unfolding find_override
find_override-append s source [] merged e = rw e refl
find_override-append s source (o ∷ os) merged e = ground (
  arith,
  same_iff o.source_pkg s,
  same_iff o.source_pkg source,
  same_iff source s,
  find_override-append s source os merged e,
)

pub merged_source :
    (old : Option PackageOverride) (new : PackageOverride)
    → (merged_with old new).source_pkg ≡ new.source_pkg
unfolding merge_overrides
merged_source none new = refl
merged_source (some old) new = refl

-- After a remedy is saved, its package has the old remedy merged with the new one, and every other
-- package has the remedy that it had.
pub find_override-save_exception :
    (s : Str) (existing : List PackageOverride) (new : PackageOverride)
    → find_override s (save_exception existing new) ≡ (
        if same new.source_pkg s
        then some (merged_with (find_override new.source_pkg existing) new)
        else find_override s existing)
unfolding save_exception
find_override-save_exception s existing new =
    find_override-sort s _
    ∙ find_override-append s new.source_pkg existing
        (merged_with (find_override new.source_pkg existing) new)
        (merged_source (find_override new.source_pkg existing) new)
