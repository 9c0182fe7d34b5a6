-- ===== src/Install/Execute.antt =====
-- `_run_step` and `execute` of src/autokernel/install.py. The machine that the commands work on, and
-- what they do to it, are arguments.
use autokernel.Base.{
  Bool, false, ◌&&◌, not, ◌==◌, List, [], ◌∷◌, Option, some, Str, all, is_some, if◌then◌else◌,
}
use autokernel.Base.Space.{is_nil}
use autokernel.Base.Int.{ℤ, pos, negsuc}
use autokernel.Base.Dict.{set_key}
use autokernel.Install.Bootloader.{BootloaderKind}
use autokernel.Install.Plan.{InstallStep, InstallPlan, Rejected}

-- How a command ended, a negative code being that of a signal.
pub data Exit : Type 0 where
  exited : ℤ → Exit
  not_found timed_out : Exit

pub record StepRun : Type 0 where
  pub step : InstallStep
  pub exit_code : ℤ

abbrev pub is_zero : ℤ → Bool
is_zero (pos n) = n == 0
is_zero (negsuc n) = false

abbrev pub ok : StepRun → Bool
ok r = is_zero r.exit_code

abbrev pub code_of : Exit → ℤ
code_of (exited n) = n
code_of not_found = negsuc 1
code_of timed_out = negsuc 0

-- `record.json` of an installation
pub record InstallRecord : Type 0 where
  pub distro_id : Str
  pub bootloader_kind : BootloaderKind
  pub package_paths : List Str
  pub steps : List StepRun
  pub ok : Bool
  pub rolled_back : Bool

-- The records below `install/`, by the time in their paths, where one is `none` that is no JSON.
abbrev pub Records : Type 0
Records = List (Str × Option InstallRecord)

abbrev pub is_valid : InstallPlan → Bool
is_valid p = not (is_some p.rejected_reason) && not (is_nil p.steps)

pub record Executed (M : Type 0) : Type 0 where
  pub runs : List StepRun
  pub records : Records
  pub machine : M

-- The error, or the result.
pub data Outcome (M : Type 0) : Type 0 where
  refused : Option Rejected → Outcome M
  executed : Executed M → Outcome M

module _ {M : Type 0} (command : InstallStep → M → Exit × M) where
  unfoldable pub run_step : InstallStep → M → StepRun × M
  run_step s m = let (exit, m1) = command s m in (record { step = s; exit_code = code_of exit }, m1)

  -- The loop over the steps, which ends at the first that fails.
  unfoldable pub run_steps : List InstallStep → M → List StepRun × M
  unfolding run_step
  run_steps [] m = ([], m)
  run_steps (s ∷ steps) m =
      let (r, m1) = run_step s m in
      let (rs, m2) = run_steps steps m1 in if ok r then (r ∷ rs, m2) else (r ∷ [], m1)

  unfoldable pub execute : InstallPlan → Str → Records → M → Outcome M
  unfolding run_steps
  execute plan stamp records m =
      let (rs, m1) = run_steps plan.steps m in
      if not (is_valid plan)
      then refused plan.rejected_reason
      else executed (record {
        runs = rs;
        records =
            set_key stamp
              (some (record {
                distro_id = plan.distro_id;
                bootloader_kind = plan.bootloader_kind;
                package_paths = plan.package_paths;
                steps = rs;
                ok = all ok rs;
                rolled_back = false;
              }))
              records;
        machine = m1;
      })
