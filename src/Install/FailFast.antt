-- ===== src/Install/FailFast.antt =====
-- `execute` of src/autokernel/install.py on every branch.
use autokernel.Base.{
  true, false, List, [], ◌∷◌, ◌++◌, map, some, Str, ◌≡◌, refl, ◌⊎◌, inl, inr, all, same, lookup,
  if◌then◌else◌, Bool-cases,
}
use autokernel.Base.Dict.{lookup-set_key}
use autokernel.Install.Plan.{InstallStep, InstallPlan}
use autokernel.Install.Execute.{
  Exit, StepRun, ok, code_of, Records, is_valid, Outcome, refused, executed, run_step, run_steps,
  execute,
}

abbrev pub step_of_run : StepRun → InstallStep
step_of_run r = r.step

-- All steps ran and succeeded, or the last that ran is the only one that failed.
abbrev pub FailFast : List InstallStep → List StepRun → Type 0
FailFast steps runs =
    ((all ok runs ≡ true) × (map step_of_run runs ≡ steps))
    ⊎ ((before : List StepRun) × (r : StepRun) × (rest : List InstallStep) × (runs
          ≡ before ++ r ∷ [])
        × (all ok before ≡ true)
        × (ok r ≡ false)
        × (map step_of_run before ++ r.step ∷ rest ≡ steps))

module _ {M : Type 0} (command : InstallStep → M → Exit × M) where
  -- The machine on which the commands of the steps were run, one after the other.
  abbrev pub after : List StepRun → M → M
  after [] m = m
  after (r ∷ runs) m = after runs (command r.step m).1

  -- Each code is that of the command, on the machine that the ones before left.
  abbrev pub HasCodes : List StepRun → M → Type 0
  HasCodes [] m = Unit
  HasCodes (r ∷ runs) m =
      (r.exit_code ≡ code_of (command r.step m).0) × HasCodes runs (command r.step m).1

  abbrev pub Executes : InstallPlan → Str → Records → M → Outcome M → Type 0
  Executes plan stamp records m (refused why) =
      (is_valid plan ≡ false) × (why ≡ plan.rejected_reason)
  Executes plan stamp records m (executed e) =
      (is_valid plan ≡ true)
      × FailFast plan.steps e.runs
      × HasCodes e.runs m
      × (e.machine ≡ after e.runs m)
      × ((x : Str)
          → lookup x e.records ≡ (
              if same x stamp
              then some (
                  some (record {
                    distro_id = plan.distro_id;
                    bootloader_kind = plan.bootloader_kind;
                    package_paths = plan.package_paths;
                    steps = e.runs;
                    ok = all ok e.runs;
                    rolled_back = false;
                  }))
              else lookup x records))

  FailFast-cons :
      (s : InstallStep) (r : StepRun) (steps : List InstallStep) (runs : List StepRun)
      → r.step ≡ s
      → ok r ≡ true
      → FailFast steps runs
      → FailFast (s ∷ steps) (r ∷ runs)
  FailFast-cons s r steps runs e on (inl (h, k)) = inl (rw (on, h) refl, rw (e, k) refl)
  FailFast-cons s r steps runs e on (inr (before, q, rest, h, k, off, l)) =
      inr (r ∷ before, q, rest, rw h refl, rw (on, k) refl, off, rw (e, l) refl)

  run_steps-FailFast :
      (steps : List InstallStep) (m : M) → FailFast steps (run_steps command steps m).0
  unfolding run_steps run_step
  run_steps-FailFast [] m = inl (refl, refl)
  run_steps-FailFast (s ∷ steps) m =
      let (r, m1) = run_step command s m in
      elim (Bool-cases (ok r)) [
        | inl on ↦ rw on (FailFast-cons s r steps _ refl on (run_steps-FailFast steps m1))
        | inr off ↦ rw off (inr ([], r, steps, refl, refl, off, refl))
      ]

  run_steps-HasCodes :
      (steps : List InstallStep) (m : M)
      → HasCodes (run_steps command steps m).0 m
        × ((run_steps command steps m).1 ≡ after (run_steps command steps m).0 m)
  unfolding run_steps run_step
  run_steps-HasCodes [] m = (tt, refl)
  run_steps-HasCodes (s ∷ steps) m =
      let (r, m1) = run_step command s m in
      let rest = run_steps-HasCodes steps m1 in
      elim (Bool-cases (ok r)) [
        | inl on ↦ rw on ((refl, rest.0), rest.1)
        | inr off ↦ rw off ((refl, tt), refl)
      ]

  -- An installation with no valid plan is refused with the plan's reason. One with a valid plan runs
  -- its steps in order, each on the machine that the ones before left, until one fails, and no
  -- further; its record has the runs, and the other records stay.
  pub execute-Executes :
      (plan : InstallPlan) (stamp : Str) (records : Records) (m : M)
      → Executes plan stamp records m (execute command plan stamp records m)
  unfolding execute
  execute-Executes plan stamp records m =
      let (codes, machine) = run_steps-HasCodes plan.steps m in
      elim (Bool-cases (is_valid plan)) [
        | inl valid ↦ rw valid (
          valid,
          run_steps-FailFast plan.steps m,
          codes,
          machine,
          λ x. lookup-set_key x stamp _ records,
        )
        | inr bad ↦ rw bad (bad, refl)
      ]
