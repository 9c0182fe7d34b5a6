-- ===== src/World/Builder/Resume.antt =====
-- `pending_units` and `build_world` of src/autokernel/world/builder.py, without its triage: what a
-- run builds, in which order, and what the next run still has to build. The builds of a wave run in
-- parallel and have directories of their own; their records are collected in the order of the units.
pub mod Again
use autokernel.Base.{
  ℕ, zero, suc, Bool, true, false, not, List, [], ◌∷◌, ◌++◌, Option, none, some, Str, str, ltb,
  ◌==◌, if◌then◌else◌, same, member, any, keep,
}
use autokernel.World.Models.{PackageOverride}
use autokernel.World.Builder.{
  SourceUnit, PackageBuildRecord, unit_dir, WorldDir, load_record, needs_build,
}
use autokernel.World.Builder.Build.{Attempt, Run, flags_hash, build_unit}

-- `manifest.model_copy(update={"overrides": [*exceptions, *manifest.overrides]})`
abbrev pub apply_exceptions : List PackageOverride → Run → Run
apply_exceptions [] run = run
apply_exceptions (e ∷ es) run = record run { overrides = e ∷ es ++ run.overrides }

pub record Pending : Type 0 where
  pub to_build : List SourceUnit
  pub done : List SourceUnit
  pub stock : List SourceUnit

unfoldable pub pending_units : Run → List SourceUnit → WorldDir → Pending
unfolding needs_build flags_hash
pending_units run [] w = record { to_build = []; done = []; stock = [] }
pending_units run (u ∷ us) w =
    let rest = pending_units run us w in
    if u.use_stock
    then record rest { stock = u ∷ rest.stock }
    else if needs_build w u (flags_hash run u.source)
    then record rest { to_build = u ∷ rest.to_build }
    else record rest { done = u ∷ rest.done }

-- `if only: ...`
abbrev pub only_of : List Str → List SourceUnit → List SourceUnit
only_of [] us = us
only_of (s ∷ only) us = keep (λ u. member u.source (s ∷ only)) us

abbrev pub take {ℓ} : {A : Type ℓ} → ℕ → List A → List A
take zero xs = []
take (suc n) [] = []
take (suc n) (x ∷ xs) = x ∷ take n xs

-- `if limit: to_build = to_build[:limit]`
abbrev pub limited : ℕ → List SourceUnit → List SourceUnit
limited zero us = us
limited (suc n) us = take (suc n) us

abbrev pub Waves : Type 0
Waves = List (ℕ × List SourceUnit)

-- `by_wave.setdefault(unit.wave, []).append(unit)`, with the waves in their order.
unfoldable pub add_wave : SourceUnit → Waves → Waves
add_wave u [] = (u.wave, u ∷ []) ∷ []
add_wave u ((wave, us) ∷ groups) =
    if u.wave == wave
    then (wave, us ++ u ∷ []) ∷ groups
    else if ltb u.wave wave
    then (u.wave, u ∷ []) ∷ (wave, us) ∷ groups
    else (wave, us) ∷ add_wave u groups

abbrev pub by_wave_from : Waves → List SourceUnit → Waves
by_wave_from groups [] = groups
by_wave_from groups (u ∷ us) = by_wave_from (add_wave u groups) us

abbrev pub units_of : Waves → List SourceUnit
units_of [] = []
units_of ((wave, us) ∷ groups) = us ++ units_of groups

-- The units in the order of their builds.
unfoldable pub wave_order : List SourceUnit → List SourceUnit
unfolding add_wave
wave_order us = units_of (by_wave_from [] us)

unfoldable pub build_all :
    Run → (SourceUnit → Attempt) → List SourceUnit → WorldDir → List PackageBuildRecord × WorldDir
unfolding build_unit
build_all run attempts [] w = ([], w)
build_all run attempts (u ∷ us) w =
    let (r, w1) = build_unit run u (attempts u) w in
    let (rs, w2) = build_all run attempts us w1 in (r ∷ rs, w2)

-- The units that a run builds.
unfoldable pub chosen_units : Run → List SourceUnit → List Str → ℕ → WorldDir → List SourceUnit
unfolding pending_units wave_order
chosen_units run units only limit w =
    wave_order (limited limit (only_of only (pending_units run units w).to_build))

unfoldable pub build_world :
    List PackageOverride
    → Run
    → (SourceUnit → Attempt)
    → List SourceUnit
    → List Str
    → ℕ
    → WorldDir
    → List PackageBuildRecord × WorldDir
unfolding chosen_units build_all
build_world exceptions manifest attempts units only limit w =
    let run = apply_exceptions exceptions manifest in
    build_all run attempts (chosen_units run units only limit w) w
