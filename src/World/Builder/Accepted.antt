-- ===== src/World/Builder/Accepted.antt =====
-- When a build is recorded as built, and what is published.
use autokernel.Base.{
  Bool, true, false, not, ◌&&◌, ◌||◌, List, [], ◌∷◌, ◌++◌, Option, none, some, Str, str, ◌≡◌, refl,
  arith, if◌then◌else◌, all, is_some, keep,
}
use autokernel.Base.Space.{is_nil}
use autokernel.World.Models.{PackageOverride}
use autokernel.World.Exceptions.{find_override}
use autokernel.World.Waves.{contains_text}
use autokernel.World.Flags.{GlobalFlags, is_clang, field, effective_compiler}
use autokernel.World.Builder.{
  SourceUnit, is_built, WorldDir, FlagsAudit, audit_build_log, compiler_identity_audit,
}
use autokernel.World.Builder.Build.{
  Attempt, Run, build_unit, run_build, run_source, run_sbuild, audited, expected_words,
  identity_holds, succeeded, log_text, problem_of, is_missing, Finish,
}

module _ (f : GlobalFlags) (o : Option PackageOverride) (a : Attempt) where
  -- Every expected word is in the log, unless the package compiles nothing.
  abbrev pub shaped : Bool
  shaped =
      (a.blhc_failed && contains_text (str "No compiler commands") a.blhc_output)
      || all (λ t. contains_text t (log_text a.build_log)) (expected_words f o a)

  -- All that a build has to pass.
  unfoldable pub passes : Bool
  unfolding contains_text compiler_identity_audit
  passes =
      (a.fetch_exact || a.fetch_candidate)
      && (a.unpacked
          && (not (is_some (problem_of (field (λ p. p.patches) [] o) a.patch_problem))
              && (a.dch
                  && (a.unpacked_again
                      && (a.dpkg_source
                          && (is_some a.dsc
                              && (succeeded f o a
                                  && (shaped
                                      && (not (is_clang (effective_compiler f o))
                                          || identity_holds f o a)))))))))

keep-eq-all : (p : Str → Bool) (xs : List Str) → is_nil (keep (λ t. not (p t)) xs) ≡ all p xs
keep-eq-all p [] = refl
keep-eq-all p (x ∷ xs) = ground (arith, keep-eq-all p xs)

is_missing-audit :
    (log : Str) (expected : List Str) (output : Str) (failed : Bool)
    → is_missing (audit_build_log log expected output failed).verdict
      ≡ not (
          (failed && contains_text (str "No compiler commands") output)
          || all (λ t. contains_text t log) expected)
unfolding audit_build_log
is_missing-audit log expected output failed =
    ground (arith, keep-eq-all (λ t. contains_text t log) expected)

is_shaped-audit :
    (log : Str) (expected : List Str) (output : Str) (failed : Bool)
    → not (is_missing (audit_build_log log expected output failed).verdict) ≡ (
        (failed && contains_text (str "No compiler commands") output)
        || all (λ t. contains_text t log) expected)
is_shaped-audit log expected output failed =
    ground (arith, is_missing-audit log expected output failed)

published-Gives :
    (r : Finish) (b : Bool) (before debs : List Str)
    → is_built r.outcome ≡ b
    → (is_built r.outcome ≡ true → r.debs ≡ debs)
    → (if is_built r.outcome then before ++ r.debs else before)
      ≡ (if b then before ++ debs else before)
published-Gives r true before debs e d = rw (e, d e) refl
published-Gives r false before debs e d = rw e refl

module _ (f : GlobalFlags) (o : Option PackageOverride) (a : Attempt) where
  -- What a stage gives where it is built: the debs of the attempt.
  abbrev Gives : Bool → Finish → Type 0
  Gives b r = (is_built r.outcome ≡ b) × (is_built r.outcome ≡ true → r.debs ≡ a.debs)

  -- A stage that is passed on a test.
  if-Gives :
      (t b : Bool) (r s : Finish)
      → is_built s.outcome ≡ false
      → Gives b r
      → Gives (t && b) (if t then r else s)
  if-Gives true b r s e g = g
  if-Gives false b r s e g = (e, λ h. cc)

  unless-Gives :
      (t b : Bool) (r s : Finish)
      → is_built s.outcome ≡ false
      → Gives b r
      → Gives (t && b) (if not t then s else r)
  unless-Gives true b r s e g = g
  unless-Gives false b r s e g = (e, λ h. cc)

  two_tests-Gives :
      (m c i : Bool) (r s t : Finish)
      → is_built r.outcome ≡ false
      → is_built s.outcome ≡ false
      → Gives true t
      → Gives (not m && (not c || i)) (if m then r else if c && not i then s else t)
  two_tests-Gives true c i r s t p q g = (p, λ h. cc)
  two_tests-Gives false true true r s t p q g = g
  two_tests-Gives false true false r s t p q g = (q, λ h. cc)
  two_tests-Gives false false i r s t p q g = g

  audited-Gives :
      (v : Str) (audit : FlagsAudit)
      → Gives
          (not (is_missing audit.verdict)
            && (not (is_clang (effective_compiler f o)) || identity_holds f o a))
          (audited f o a v audit)
  unfolding audited
  audited-Gives v audit =
      two_tests-Gives (is_missing audit.verdict) (is_clang (effective_compiler f o))
        (identity_holds f o a) _ _ _ refl refl (refl, λ h. refl)

  run_sbuild-Gives :
      (d : Option Str)
      → Gives
          (is_some d
            && (succeeded f o a
                && (shaped f o a
                    && (not (is_clang (effective_compiler f o)) || identity_holds f o a))))
          (run_sbuild f o a d)
  unfolding run_sbuild
  run_sbuild-Gives none = (refl, λ h. cc)
  run_sbuild-Gives (some v) = if-Gives (succeeded f o a) _ _ _ refl (
      rw (is_shaped-audit (log_text a.build_log) (expected_words f o a) a.blhc_output a.blhc_failed)
        at
        (audited-Gives v (
          audit_build_log (log_text a.build_log) (expected_words f o a) a.blhc_output
            a.blhc_failed)))

  run_source-Gives :
      (problem : Option Str)
      → Gives
          (not (is_some problem)
            && (a.dch
                && (a.unpacked_again
                    && (a.dpkg_source
                        && (is_some a.dsc
                            && (succeeded f o a
                                && (shaped f o a
                                    && (not (is_clang (effective_compiler f o))
                                        || identity_holds f o a))))))))
          (run_source f o a problem)
  unfolding run_source
  run_source-Gives (some p) = (refl, λ h. cc)
  run_source-Gives none = unless-Gives a.dch _ _ _ refl (
      unless-Gives a.unpacked_again _ _ _ refl
        (unless-Gives a.dpkg_source _ _ _ refl (run_sbuild-Gives a.dsc)))

  run_build-Gives : Gives (passes f o a) (run_build f o a)
  unfolding run_build passes
  run_build-Gives =
      unless-Gives (a.fetch_exact || a.fetch_candidate) _ _ _ refl
        (unless-Gives a.unpacked _ _ _ refl (run_source-Gives _))

pub build_unit-passes :
    (run : Run) (unit : SourceUnit) (a : Attempt) (w : WorldDir)
    → (is_built (build_unit run unit a w).0.outcome
        ≡ passes run.flags (find_override unit.source run.overrides) a)
      × ((build_unit run unit a w).1.published ≡ (
          if passes run.flags (find_override unit.source run.overrides) a
          then w.published ++ a.debs
          else w.published))
unfolding build_unit
build_unit-passes run unit a w =
    let (e, d) = run_build-Gives run.flags (find_override unit.source run.overrides) a in
    (
      e,
      published-Gives (run_build run.flags (find_override unit.source run.overrides) a) _
          w.published a.debs e d,
    )
