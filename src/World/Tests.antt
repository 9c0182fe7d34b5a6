-- ===== src/World/Tests.antt =====
-- A failed build of bash, triaged twice.
use autokernel.Base.{ℕ, List, [], ◌∷◌, none, some, Str, str, ◌≡◌, refl, same, member, if◌then◌else◌}
use autokernel.Base.Space.{drop_left, drop_right, is_space}
use autokernel.Base.{
  is_some, lookup, map, sorted, insert_sorted, text_le, dedupe_from, starts_with, strip_prefix,
}
use autokernel.Base.Dict.{set_key}
use autokernel.World.Waves.{
  Deps, keys, assign_waves, run_waves, next_wave, ready_of, min_deps, classify_cost, contains_text,
  normal, heavy, monster,
}
use autokernel.World.Waves.Total.{assign_waves-total}
use autokernel.World.Models.{PackageOverride, opt_miscompile, FailureClass}
use autokernel.World.Triage.{
  TriageDraft, judge, words_from, bare_override, override_check, check_flags, check_options,
  draft_to_verdict, remedy_of, is_flag,
}
use autokernel.World.Triage.Safety.{IsSane, judge-IsSane}
use autokernel.World.Exceptions.{merged_with, find_override, save_exception}
use autokernel.World.Exceptions.Laws.{find_override-save_exception}

abbrev draft : FailureClass → Str → List Str → TriageDraft
draft failure action flags = record {
  failure_class = failure;
  remedy = record {
    action = action;
    strip_flags = flags;
    add_flags = [];
    strip_options = [];
    reason = str "log";
  };
  confidence = 0;
  evidence = [];
}

abbrev cflags : Str
cflags = str "-march=native -O3"

abbrev no_o3 : PackageOverride
no_o3 = record (bare_override (str "bash") (str "log")) { strip_flags = str "-O3" ∷ [] }

judge-strip :
    (judge
      (str "bash")
      (draft opt_miscompile (str "strip-flags") (str "-O3" ∷ []))
      cflags
      []).0.remedy
    ≡ some no_o3
unfolding judge draft_to_verdict remedy_of override_check check_flags check_options words_from
    is_space drop_left drop_right same is_flag
judge-strip = refl

judge-nocheck :
    (judge (str "bash") (draft opt_miscompile (str "nocheck") []) cflags []).0.remedy ≡ none
unfolding judge draft_to_verdict remedy_of override_check check_flags check_options words_from
    is_space drop_left drop_right same is_flag
judge-nocheck = refl

judge-IsSane_example : IsSane (words_from [] cflags) [] opt_miscompile no_o3
judge-IsSane_example =
    judge-IsSane (str "bash") (draft opt_miscompile (str "strip-flags") (str "-O3" ∷ [])) cflags []
      no_o3 judge-strip

abbrev with_gcc : PackageOverride
with_gcc = record (bare_override (str "bash") (str "gcc")) { force_compiler = some (str "gcc") }

find_override-save_exception_example :
    find_override (str "bash") (save_exception (no_o3 ∷ []) with_gcc) ≡ (
      if same with_gcc.source_pkg (str "bash")
      then some (merged_with (find_override with_gcc.source_pkg (no_o3 ∷ [])) with_gcc)
      else find_override (str "bash") (no_o3 ∷ []))
find_override-save_exception_example =
    find_override-save_exception (str "bash") (no_o3 ∷ []) with_gcc

-- Two sources that need each other, and one that needs the first.
abbrev ring : Deps
ring =
    (str "a", str "b" ∷ []) ∷ (str "b", str "a" ∷ []) ∷ (str "c", str "a" ∷ []) ∷ (str "d", []) ∷ []

assign_waves-ring :
    assign_waves ring
    ≡ some (
      (str "d", 0) ∷ (str "a", 1) ∷ (str "b", 1) ∷ (str "c", 1) ∷ [],
      str "a" ∷ str "b" ∷ str "c" ∷ [],
    )
unfolding assign_waves run_waves next_wave ready_of min_deps sorted insert_sorted text_le same
    set_key dedupe_from
assign_waves-ring = refl

assign_waves-total_example :
    (waves : List (Str × ℕ)) × (cycle_members : List Str) × (assign_waves ring
      ≡ some (waves, cycle_members))
    × (is_some (lookup (str "c") waves) ≡ member (str "c") (keys ring))
assign_waves-total_example = assign_waves-total ring (str "c")

costs :
    map
      (λ s. classify_cost s 500)
      (str "linux-meta" ∷ str "linux-hwe" ∷ str "perl" ∷ str "sed" ∷ [])
    ≡ normal ∷ monster ∷ heavy ∷ normal ∷ []
unfolding classify_cost contains_text starts_with strip_prefix same
costs = refl
