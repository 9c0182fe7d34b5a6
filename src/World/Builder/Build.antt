-- ===== src/World/Builder/Build.antt =====
-- `build_unit` of src/autokernel/world/builder.py.
use autokernel.Base.{
  Bool, true, false, not, ◌&&◌, ◌||◌, List, [], ◌∷◌, ◌++◌, Option, none, some, Str, str,
  if◌then◌else◌,
}
use autokernel.Base.Dict.{set_key}
use autokernel.World.Models.{PackageOverride}
use autokernel.World.Exceptions.{find_override}
use autokernel.World.Waves.{contains_text}
use autokernel.World.Flags.{
  GlobalFlags, Profiles, words, is_clang, field, effective_compiler, effective_cflags,
}
use autokernel.World.Flags.Environment.{Payload, flags_payload}
use autokernel.World.Builder.{
  SourceUnit, BuildOutcome, built, ftbfs, fetch_failed, AuditVerdict, missing_flags, FlagsAudit,
  Note, source_failed, no_source, dch_failed, source_vanished, dpkg_source_failed, no_dsc,
  sbuild_failed, patch_failed, wrong_compiler, flags_missing, PackageBuildRecord, is_built,
  unit_dir, WorldDir, Compiles, compiler_identity_audit, audit_build_log,
}

-- What the tools give: whether a command succeeds, whether there is a source directory, the problem
-- of the patches, the version of the `.dsc`, and the last build log.
pub record Attempt : Type 0 where
  pub fetch_exact : Bool
  pub fetch_candidate : Bool
  pub unpacked : Bool
  pub patch_problem : Option Str
  pub dch : Bool
  pub unpacked_again : Bool
  pub dpkg_source : Bool
  pub dsc : Option Str
  pub sbuild : Bool
  pub build_log : Option Str
  pub blhc_output : Str
  pub blhc_failed : Bool
  pub compiles : Compiles
  pub debs : List Str

-- The arguments of `finish`.
pub record Finish : Type 0 where
  pub outcome : BuildOutcome
  pub local_version : Option Str
  pub audit : Option FlagsAudit
  pub debs : List Str
  pub note : Option Note

abbrev pub failed : BuildOutcome → Note → Finish
failed outcome note = record {
  outcome = outcome;
  local_version = none;
  audit = none;
  debs = [];
  note = some note;
}

abbrev pub log_text : Option Str → Str
log_text none = []
log_text (some s) = s

-- The problem of the patches, if the override has any.
abbrev pub problem_of : List Str → Option Str → Option Str
problem_of [] problem = none
problem_of (p ∷ ps) problem = problem

abbrev pub is_missing : AuditVerdict → Bool
is_missing missing_flags = true
is_missing _ = false

module _ (f : GlobalFlags) (o : Option PackageOverride) (a : Attempt) where
  -- The words that have to be in the log; profiles are not among them.
  abbrev pub expected_words : List Str
  expected_words = words (effective_cflags f o [] none)

  abbrev pub masqueraded : Bool
  masqueraded = f.masquerade && is_clang (effective_compiler f o)

  abbrev pub identity_holds : Bool
  identity_holds = compiler_identity_audit a.compiles (str "clang") masqueraded

  -- 4. and 5. The audits of a build that succeeded.
  unfoldable pub audited : Str → FlagsAudit → Finish
  audited version audit =
      if is_missing audit.verdict
      then record (failed ftbfs (flags_missing audit.missing)) {
        local_version = some version;
        audit = some audit;
      }
      else if is_clang (effective_compiler f o) && not identity_holds
      then record (failed ftbfs (wrong_compiler (str "clang"))) {
        local_version = some version;
        audit = some audit;
      }
      else record {
        outcome = built;
        local_version = some version;
        audit = some audit;
        debs = a.debs;
        note = none;
      }

  abbrev pub succeeded : Bool
  succeeded = a.sbuild && contains_text (str "Status: successful") (log_text a.build_log)

  -- 3. sbuild
  unfoldable pub run_sbuild : Option Str → Finish
  unfolding audited
  run_sbuild none = failed ftbfs no_dsc
  run_sbuild (some version) =
      if succeeded
      then audited version
          (audit_build_log (log_text a.build_log) expected_words a.blhc_output a.blhc_failed)
      else record (failed ftbfs sbuild_failed) { local_version = some version }

  -- 2. the version with its suffix, and the source package
  unfoldable pub run_source : Option Str → Finish
  unfolding run_sbuild
  run_source (some problem) = failed ftbfs (patch_failed problem)
  run_source none =
      if not a.dch
      then failed ftbfs dch_failed
      else if not a.unpacked_again
      then failed ftbfs source_vanished
      else if not a.dpkg_source
      then failed ftbfs dpkg_source_failed
      else run_sbuild a.dsc

  -- 1. the source and its patches
  unfoldable pub run_build : Finish
  unfolding run_source
  run_build =
      if not (a.fetch_exact || a.fetch_candidate)
      then failed fetch_failed source_failed
      else if not a.unpacked
      then failed fetch_failed no_source
      else run_source (problem_of (field (λ p. p.patches) [] o) a.patch_problem)

abbrev pub finish : SourceUnit → Str → Finish → PackageBuildRecord
finish unit fhash r = record {
  source = unit.source;
  archive_version = unit.version;
  local_version = r.local_version;
  flags_hash = fhash;
  outcome = r.outcome;
  wave = unit.wave;
  audit = r.audit;
  debs = r.debs;
  note = r.note;
}

-- What every build of a run shares. The hash is of the payload.
pub record Run : Type 0 where
  pub flags : GlobalFlags
  pub overrides : List PackageOverride
  pub profiles : Profiles
  pub digest : Payload → Str

unfoldable pub flags_hash : Run → Str → Str
unfolding flags_payload find_override
flags_hash run source =
    run.digest (flags_payload run.flags (find_override source run.overrides) source run.profiles)

unfoldable pub build_unit : Run → SourceUnit → Attempt → WorldDir → PackageBuildRecord × WorldDir
unfolding run_build flags_hash find_override
build_unit run unit a w =
    let r = run_build run.flags (find_override unit.source run.overrides) a in
    let saved = finish unit (flags_hash run unit.source) r in
    (
      saved,
      record {
        records = set_key (unit_dir unit) saved w.records;
        published = if is_built r.outcome then w.published ++ r.debs else w.published;
      },
    )
