-- ===== src/World/Builder.antt =====
-- The builder of src/autokernel/world/builder.py: one build, its audits, its record, and the choice of
-- what is still to build. What the tools of a build give is an argument, an `Attempt`. The directory
-- of the records is a dictionary from their paths, and the hash is a function of the payload.
pub mod Build
pub mod Accepted
pub mod Resume
pub mod Retry
mod Tests
use autokernel.Base.{
  suc, ℕ, Bool, true, false, not, ◌&&◌, ◌||◌, List, [], ◌∷◌, ◌++◌, Option, none, some, Str, str,
  ltb, ◌==◌, if◌then◌else◌, same, length, member, any, keep, lookup, starts_with, map, dedupe,
  dedupe_from, sorted,
}
use autokernel.Base.Dict.{set_key}
use autokernel.Base.Space.{is_nil, splitlines, lines_from}
use autokernel.World.Models.{PackageOverride}
use autokernel.World.Exceptions.{find_override}
use autokernel.World.Waves.{BuildCost, contains_text}
use autokernel.World.Flags.{
  GlobalFlags, Profiles, words, is_clang, effective_compiler, effective_cflags,
}
use autokernel.World.Flags.Environment.{Payload, flags_payload}

pub record SourceUnit : Type 0 where
  pub source : Str
  pub version : Str
  pub binaries : List Str
  pub build_deps_in_closure : List Str
  pub wave : ℕ
  pub cost : BuildCost
  pub use_stock : Bool
  pub note : Option Str

pub data BuildOutcome : Type 0 where
  built ftbfs fetch_failed skipped_stock : BuildOutcome

pub data AuditVerdict : Type 0 where
  flags_present no_compiler missing_flags : AuditVerdict

pub record FlagsAudit : Type 0 where
  pub verdict : AuditVerdict
  pub expected : List Str
  pub missing : List Str
  pub blhc_finding_count : ℕ
  pub blhc_summary : List Str

-- The notes of `finish`, by their text.
pub data Note : Type 0 where
  source_failed no_source dch_failed source_vanished dpkg_source_failed no_dsc sbuild_failed : Note
  patch_failed wrong_compiler : Str → Note
  flags_missing : List Str → Note

-- Without the times and the path of the log.
pub record PackageBuildRecord : Type 0 where
  pub source : Str
  pub archive_version : Str
  pub local_version : Option Str
  pub flags_hash : Str
  pub outcome : BuildOutcome
  pub wave : ℕ
  pub audit : Option FlagsAudit
  pub debs : List Str
  pub note : Option Note

abbrev pub is_built : BuildOutcome → Bool
is_built built = true
is_built _ = false

abbrev pub is_ftbfs : BuildOutcome → Bool
is_ftbfs ftbfs = true
is_ftbfs _ = false

-- `version.replace(":", "%3a")`
unfoldable pub safe_version : Str → Str
safe_version [] = []
safe_version (c ∷ s) = if c == b':' then str "%3a" ++ safe_version s else c ∷ safe_version s

-- The directory of a unit below `builds`.
unfoldable pub unit_dir : SourceUnit → Str
unfolding safe_version
unit_dir unit = unit.source ++ (b'/' ∷ safe_version unit.version)

-- The records on disk, by directory, and the packages published so far.
pub record WorldDir : Type 0 where
  pub records : List (Str × PackageBuildRecord)
  pub published : List Str

abbrev pub load_record : WorldDir → SourceUnit → Option PackageBuildRecord
load_record w unit = lookup (unit_dir unit) w.records

-- `record and record.ok and record.flags_hash == fhash`
abbrev pub is_done : Str → Option PackageBuildRecord → Bool
is_done fhash none = false
is_done fhash (some r) = is_built r.outcome && same r.flags_hash fhash

unfoldable pub needs_build : WorldDir → SourceUnit → Str → Bool
needs_build w unit fhash =
    if unit.use_stock then false else not (is_done fhash (load_record w unit))

-- How often the expressions for compile commands match in the log.
pub record Compiles : Type 0 where
  pub clang : ℕ
  pub gcc : ℕ
  pub bypass : ℕ

unfoldable pub compiler_identity_audit : Compiles → Str → Bool → Bool
compiler_identity_audit n want masquerade =
    if not (is_clang want)
    then true
    else if masquerade
    then not (ltb 0 n.bypass)
    else not (ltb n.clang n.gcc)

abbrev pub is_finding : Str → Bool
is_finding line =
    starts_with line (str "CFLAGS missing")
    || starts_with line (str "LDFLAGS missing")
    || starts_with line (str "CPPFLAGS missing")
    || starts_with line (str "NONVERBOSE BUILD")

-- `s.split(":")[0]`
unfoldable pub before_colon : Str → Str
before_colon [] = []
before_colon (c ∷ s) = if c == b':' then [] else c ∷ before_colon s

unfoldable pub audit_build_log : Str → List Str → Str → Bool → FlagsAudit
unfolding contains_text lines_from before_colon dedupe_from sorted
audit_build_log log_text expected_tokens blhc_output blhc_failed =
    let findings = keep is_finding (splitlines blhc_output) in
    let missing = keep (λ t. not (contains_text t log_text)) expected_tokens in
    if blhc_failed && contains_text (str "No compiler commands") blhc_output
    then record {
      verdict = no_compiler;
      expected = expected_tokens;
      missing = [];
      blhc_finding_count = 0;
      blhc_summary = [];
    }
    else record {
      verdict = if is_nil missing then flags_present else missing_flags;
      expected = expected_tokens;
      missing = missing;
      blhc_finding_count = length findings;
      blhc_summary = sorted (dedupe (map before_colon findings));
    }
