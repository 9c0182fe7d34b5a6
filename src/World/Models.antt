-- ===== src/World/Models.antt =====
-- The models of src/autokernel/world/models.py that the triage of failed builds reads.
use autokernel.Base.{Bool, true, false, List, Option, Str, ℕ}

pub data OverrideSource : Type 0 where
  preset user llm_triage : OverrideSource

pub record PackageOverride : Type 0 where
  pub source_pkg : Str
  pub strip_flags : List Str
  pub add_flags : List Str
  pub build_options : List Str
  pub strip_build_options : List Str
  pub force_compiler : Option Str
  pub profiles : List Str
  pub patches : List Str
  pub use_stock : Bool
  pub reason : Str
  pub provenance : OverrideSource

pub data FailureClass : Type 0 where
  lto_incompat needs_gcc opt_miscompile march_illegal_insn : FailureClass
  test_failure test_flake dep_skew packaging unknown : FailureClass

pub record FtbfsVerdict : Type 0 where
  pub source : Str
  pub failure_class : FailureClass
  pub remedy : Option PackageOverride
  pub confidence : ℕ
  pub evidence : List Str

-- `failure_class == FailureClass.OPT_MISCOMPILE`
abbrev pub is_miscompile : FailureClass → Bool
is_miscompile opt_miscompile = true
is_miscompile _ = false
