-- ===== src/World/Builder/Retry.antt =====
-- `triage_and_retry` of src/autokernel/world/builder.py: rounds of triage and rebuild of the packages
-- that failed. What the host gives in a round, the log of a failed build, the draft of the language
-- model, the patch of a coding agent and the tools of the rebuild, are functions of the round and the
-- package.
pub mod Confirmed
use autokernel.Base.{
  ℕ, zero, suc, Bool, true, false, not, ◌&&◌, ◌||◌, List, [], ◌∷◌, ◌++◌, Option, none, some, Str,
  str, if◌then◌else◌, same, is_some, lookup, keep, map,
}
use autokernel.Base.Dict.{set_key}
use autokernel.Base.Space.{is_nil}
use autokernel.World.Models.{PackageOverride, OverrideSource, preset, user, llm_triage}
use autokernel.World.Triage.{TriageDraft, judge, bare_override}
use autokernel.World.Exceptions.{find_override, merged_with, save_exception}
use autokernel.World.Flags.{effective_cflags}
use autokernel.World.Builder.{SourceUnit, PackageBuildRecord, WorldDir, is_ftbfs, is_built}
use autokernel.World.Builder.Build.{Attempt, Run, build_unit}

-- The log, the draft, the patch and the reason of the agent, if there is one, and the tools of a
-- rebuild.
pub record HostAnswer : Type 0 where
  pub log : Option Str
  pub draft : TriageDraft
  pub patch : Option (Str × Str)
  pub attempt : Attempt

abbrev pub Host : Type 0
Host = ℕ → Str → HostAnswer

abbrev pub to_list {ℓ} : {A : Type ℓ} → Option A → List A
to_list none = []
to_list (some a) = a ∷ []

abbrev is_full : Option Str → Bool
is_full none = false
is_full (some s) = not (is_nil s)

unfoldable pub remedy_changes_something : PackageOverride → Bool
remedy_changes_something r =
    not (is_nil r.strip_flags)
    || not (is_nil r.add_flags)
    || not (is_nil r.build_options)
    || not (is_nil r.strip_build_options)
    || not (is_nil r.profiles)
    || is_full r.force_compiler
    || not (is_nil r.patches)
    || r.use_stock

-- `a == b` on lists of texts, optional texts and overrides
unfoldable pub same_texts : List Str → List Str → Bool
same_texts [] [] = true
same_texts (x ∷ xs) (y ∷ ys) = same x y && same_texts xs ys
same_texts _ _ = false

abbrev same_option : Option Str → Option Str → Bool
same_option none none = true
same_option (some s) (some t) = same s t
same_option _ _ = false

abbrev same_bool : Bool → Bool → Bool
same_bool true b = b
same_bool false b = not b

abbrev same_provenance : OverrideSource → OverrideSource → Bool
same_provenance preset preset = true
same_provenance user user = true
same_provenance llm_triage llm_triage = true
same_provenance _ _ = false

unfoldable pub same_override : PackageOverride → PackageOverride → Bool
unfolding same_texts
same_override a b =
    same a.source_pkg b.source_pkg
    && same_texts a.strip_flags b.strip_flags
    && same_texts a.add_flags b.add_flags
    && same_texts a.build_options b.build_options
    && same_texts a.strip_build_options b.strip_build_options
    && same_option a.force_compiler b.force_compiler
    && same_texts a.profiles b.profiles
    && same_texts a.patches b.patches
    && same_bool a.use_stock b.use_stock
    && same a.reason b.reason
    && same_provenance a.provenance b.provenance

-- What the loop changes: the records by source, the remedies so far, the table and the directory.
pub record Triage : Type 0 where
  pub out : List (Str × PackageBuildRecord)
  pub acc : List (Str × PackageOverride)
  pub exceptions : List PackageOverride
  pub disk : WorldDir
  pub progressed : Bool

-- `acc.get(record.source) or base_override`
abbrev pub or_else {ℓ} : {A : Type ℓ} → Option A → Option A → Option A
or_else (some a) b = some a
or_else none b = b

-- `prior is not None and merged == prior`
abbrev pub is_known : Option PackageOverride → PackageOverride → Bool
is_known none merged = false
is_known (some prior) merged = same_override merged prior

abbrev pub in_front : PackageOverride → Run → Run
in_front o run = record run { overrides = o ∷ run.overrides }

-- The rebuild with the remedy, which is saved when it is confirmed.
unfoldable pub rebuild : Run → SourceUnit → Attempt → PackageOverride → Triage → Triage
unfolding build_unit save_exception remedy_changes_something
rebuild run unit attempt merged t =
    let (new, disk) = build_unit (in_front merged run) unit attempt t.disk in
    record t {
      out = set_key unit.source new t.out;
      acc = set_key unit.source merged t.acc;
      exceptions =
          if is_built new.outcome && remedy_changes_something merged
          then save_exception t.exceptions merged
          else t.exceptions;
      disk = disk;
      progressed = true;
    }

-- What is done with a remedy that says something new.
unfoldable pub use_remedy : Run → SourceUnit → Attempt → PackageOverride → Triage → Triage
unfolding rebuild
use_remedy run unit attempt merged t =
    if merged.use_stock
    then record t {
      acc = set_key unit.source merged t.acc;
      exceptions = save_exception t.exceptions merged;
      progressed = true;
    }
    else rebuild run unit attempt merged t

unfoldable pub with_remedy : Run → SourceUnit → Attempt → Option PackageOverride → Triage → Triage
unfolding use_remedy same_override
with_remedy run unit attempt none t = t
with_remedy run unit attempt (some remedy) t =
    let prior = lookup unit.source t.acc in
    let merged = merged_with prior remedy in
    if is_known prior merged then t else use_remedy run unit attempt merged t

-- The override that `agentic_patch_remedy` returns for a saved patch.
abbrev pub agentic_patch_remedy : Str → Option (Str × Str) → Option PackageOverride
agentic_patch_remedy source none = none
agentic_patch_remedy source (some (path, reason)) =
    some (record (bare_override source reason) { patches = path ∷ [] })

-- The remedy of the triage, or of the coding agent.
unfoldable pub remedy_for : Run → SourceUnit → HostAnswer → Triage → Option PackageOverride
unfolding judge effective_cflags find_override
remedy_for run unit host t =
    let known = or_else (lookup unit.source t.acc) (find_override unit.source run.overrides) in
    or_else
      (judge unit.source host.draft (effective_cflags run.flags known [] none)
        run.flags.build_options).0.remedy
      (agentic_patch_remedy unit.source host.patch)

-- One package of a round: without a log there is no triage.
unfoldable pub retry_one : Run → HostAnswer → SourceUnit → Triage → Triage
unfolding remedy_for with_remedy
retry_one run host unit t =
    if is_some host.log then with_remedy run unit host.attempt (remedy_for run unit host t) t else t

-- `units[r.source]` for the failed records of a source in the plan
unfoldable pub failing : List (Str × SourceUnit) → List (Str × PackageBuildRecord) → List SourceUnit
failing units [] = []
failing units ((source, r) ∷ out) =
    let rest = failing units out in
    if is_ftbfs r.outcome then to_list (lookup r.source units) ++ rest else rest

unfoldable pub retry_all : Run → Host → ℕ → List SourceUnit → Triage → Triage
unfolding retry_one
retry_all run host round [] t = t
retry_all run host round (u ∷ us) t =
    retry_all run host round us (retry_one run (host round u.source) u t)

-- The rounds that are left, and the number of the next one.
unfoldable pub retry_rounds : Run → Host → List (Str × SourceUnit) → ℕ → ℕ → Triage → Triage
unfolding failing retry_all
retry_rounds run host units zero round t = t
retry_rounds run host units (suc k) round t =
    let us = failing units t.out in
    let t1 = retry_all run host round us (record t { progressed = false }) in
    let rest = retry_rounds run host units k (suc round) t1 in
    if is_nil us then t else if t1.progressed then rest else t1

-- `{u.source: u for u in plan.units}` and `{r.source: r for r in records}`
abbrev pub units_by_source : List SourceUnit → List (Str × SourceUnit) → List (Str × SourceUnit)
units_by_source [] m = m
units_by_source (u ∷ us) m = units_by_source us (set_key u.source u m)

abbrev pub records_by_source :
    List PackageBuildRecord → List (Str × PackageBuildRecord) → List (Str × PackageBuildRecord)
records_by_source [] m = m
records_by_source (r ∷ rs) m = records_by_source rs (set_key r.source r m)

unfoldable pub triage_and_retry :
    Run
    → Host
    → List SourceUnit
    → List PackageBuildRecord
    → ℕ
    → List PackageOverride
    → WorldDir
    → Triage
unfolding retry_rounds
triage_and_retry run host plan records max_rounds exceptions w =
    retry_rounds run host (units_by_source plan []) max_rounds 0 (record {
      out = records_by_source records [];
      acc = [];
      exceptions = exceptions;
      disk = w;
      progressed = false;
    })
