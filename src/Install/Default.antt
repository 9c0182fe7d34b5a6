-- ===== src/Install/Default.antt =====
-- Which plans of src/autokernel/install.py change the default entry of the boot menu.
use mathlib.Core.List.{reverse, reverse-append}
use autokernel.Base.{
  Bool, true, false, List, [], ◌∷◌, ◌++◌, Option, none, some, Str, str, ◌≡◌, refl, inl, inr, All,
  All-append, any, ends_with, starts_with, starts_with-append, strip_prefix, Bool-cases, same,
}
use autokernel.Base.Space.{is_nil}
use autokernel.Install.Bootloader.{
  Bootloader, is_supported, is_grub2, regenerate_cmd, set_default_argv, one_shot_argv, tool_prefix,
}
use autokernel.Install.Plan.{
  Distro, Family, debian, fedora, arch, suse, is_debian, with_args, NvidiaDriverPlan, InstallStep,
  InstallPlan, build_plan, build_commit_plan, backup_step, per_distro_install_argv, nvidia_steps,
  optional_steps, step_of, probation, package_tool, with_packages,
}
use autokernel.Install.Execute.{
  Exit, StepRun, ok, is_valid, Records, Outcome, refused, executed, run_step, run_steps, execute,
}

-- The command of the step is the one that sets the default entry.
abbrev pub head_is_setter : List Str → Bool
unfolding ends_with
head_is_setter [] = false
head_is_setter (tool ∷ args) = ends_with tool (str "set-default")

abbrev pub sets_default : InstallStep → Bool
sets_default s = head_is_setter s.argv

abbrev pub Keeps : InstallStep → Type 0
Keeps s = sets_default s ≡ false

abbrev pub runs_of : {M : Type 0} → Outcome M → List StepRun
runs_of (refused why) = []
runs_of (executed e) = e.runs

reboot-Keeps : (prefix : Str) → ends_with (prefix ++ str "reboot") (str "set-default") ≡ false
unfolding ends_with starts_with strip_prefix
reboot-Keeps prefix = rw (reverse-append prefix (str "reboot")) refl

set_default-ends :
    (prefix : Str) → ends_with (prefix ++ str "set-default") (str "set-default") ≡ true
unfolding ends_with
set_default-ends prefix =
    rw (reverse-append prefix (str "set-default"))
      (starts_with-append (reverse (str "set-default")) (reverse prefix))

abbrev option_sets : Option (List Str) → Bool
option_sets none = false
option_sets (some argv) = head_is_setter argv

step_of-Keeps :
    (name : Str) (o : Option (List Str)) → option_sets o ≡ false → All Keeps (step_of name o)
step_of-Keeps name none h = tt
step_of-Keeps name (some argv) h = (h, tt)

package_tool-Keeps :
    (f : Family) (paths : List Str) → option_sets (with_args (package_tool f) paths) ≡ false
unfolding ends_with starts_with strip_prefix
package_tool-Keeps debian paths = refl
package_tool-Keeps fedora paths = refl
package_tool-Keeps arch paths = refl
package_tool-Keeps suse paths = refl
package_tool-Keeps _ paths = refl

package-Keeps :
    (d : Distro) (paths : List Str) → option_sets (per_distro_install_argv d paths) ≡ false
unfolding per_distro_install_argv
package-Keeps d [] = refl
package-Keeps d (p ∷ paths) = package_tool-Keeps d.family (p ∷ paths)

module _ (d : Distro) (b : Bootloader) where
  backup_step-Keeps : Keeps (backup_step b)
  unfolding backup_step ends_with starts_with strip_prefix
  backup_step-Keeps = elim (Bool-cases (is_nil b.grub_tool_prefix)) [
    | inl nil ↦ rw nil refl
    | inr long ↦ rw long refl
  ]

  optional_steps-Keeps : (nvidia : Option NvidiaDriverPlan) → All Keeps (optional_steps nvidia d)
  unfolding nvidia_steps ends_with starts_with strip_prefix
  optional_steps-Keeps none = tt
  optional_steps-Keeps (some n) = elim (Bool-cases (is_debian d.family)) [
    | inl on ↦ rw on (refl, (refl, (refl, (refl, tt))))
    | inr off ↦ rw off tt
  ]

  regenerate-Keeps :
      (has_update_grub : Bool) → option_sets (regenerate_cmd has_update_grub b) ≡ false
  unfolding regenerate_cmd ends_with starts_with strip_prefix
  regenerate-Keeps has_update_grub = elim (Bool-cases (is_grub2 b.kind)) [
    | inl on ↦ elim (Bool-cases (same b.grub_tool_prefix (str "grub2-"))) [
      | inl two ↦ rw (on, two) refl
      | inr other ↦ elim (Bool-cases has_update_grub) [
        | inl here ↦ rw (on, other, here) refl
        | inr missing ↦ rw (on, other, missing) refl
      ]
    ]
    | inr off ↦ rw off refl
  ]

  probation-Keeps : (enable : Bool) (entry : Option Str) → All Keeps (probation enable entry b)
  unfolding one_shot_argv ends_with
  probation-Keeps true (some entry) = elim (Bool-cases (is_grub2 b.kind)) [
    | inl on ↦ rw on (reboot-Keeps (tool_prefix b), tt)
    | inr off ↦ rw off tt
  ]
  probation-Keeps true none = tt
  probation-Keeps false entry = tt

  with_packages-Keeps :
      (has_update_grub : Bool) (argv : Option (List Str)) (paths : List Str) (entry : Option Str)
      (enable : Bool) (nvidia : Option NvidiaDriverPlan)
      → option_sets argv ≡ false
      → All Keeps (with_packages has_update_grub d b argv paths entry enable nvidia).steps
  with_packages-Keeps has_update_grub none paths entry enable nvidia h = tt
  with_packages-Keeps has_update_grub (some argv) paths entry enable nvidia h = (
    backup_step-Keeps,
    (
      h,
      All-append Keeps (optional_steps nvidia d) _ (optional_steps-Keeps nvidia) (
          All-append Keeps (step_of _ (regenerate_cmd has_update_grub b)) _
            (step_of-Keeps _ _ (regenerate-Keeps has_update_grub)) (probation-Keeps enable entry)),
    ),
  )

  build_plan-Keeps :
      (has_update_grub : Bool) (paths : List Str) (entry : Option Str) (enable : Bool)
      (nvidia : Option NvidiaDriverPlan)
      → All Keeps (build_plan has_update_grub d b paths entry enable nvidia).steps
  unfolding build_plan
  build_plan-Keeps has_update_grub paths entry enable nvidia = elim (Bool-cases (is_supported b)) [
    | inl on ↦
        rw on
          (with_packages-Keeps has_update_grub _ paths entry enable nvidia (package-Keeps d paths))
    | inr off ↦ rw off tt
  ]

  commit-sets :
      (entry : Str) → any sets_default (build_commit_plan d b entry).steps ≡ is_supported b
  unfolding build_commit_plan set_default_argv ends_with
  commit-sets entry = elim (Bool-cases (is_grub2 b.kind)) [
    | inl on ↦ rw (on, set_default-ends (tool_prefix b)) refl
    | inr off ↦ rw off refl
  ]

  module _ {M : Type 0} (command : InstallStep → M → Exit × M) where
    run_steps-Keeps :
        (steps : List InstallStep) (m : M)
        → All Keeps steps
        → All (λ r. Keeps r.step) (run_steps command steps m).0
    unfolding run_steps run_step
    run_steps-Keeps [] m h = tt
    run_steps-Keeps (s ∷ steps) m h =
        let (r, m1) = run_step command s m in
        elim (Bool-cases (ok r)) [
          | inl on ↦ rw on (h.0, run_steps-Keeps steps m1 h.1)
          | inr off ↦ rw off (h.0, tt)
        ]

    execute-runs :
        (plan : InstallPlan) (stamp : Str) (records : Records) (m : M)
        → All Keeps plan.steps
        → All (λ r. Keeps r.step) (runs_of (execute command plan stamp records m))
    unfolding execute
    execute-runs plan stamp records m h = elim (Bool-cases (is_valid plan)) [
      | inl valid ↦ rw valid (run_steps-Keeps plan.steps m h)
      | inr bad ↦ rw bad tt
    ]

    -- However an installation goes, no command that it runs is the one that sets the default entry of
    -- the boot menu; the plan that commits a kernel has that command exactly when the bootloader is
    -- supported.
    pub build_plan-Keeps_default :
        (has_update_grub : Bool) (paths : List Str) (entry : Option Str) (enable : Bool)
        (nvidia : Option NvidiaDriverPlan) (kernel stamp : Str) (records : Records) (m : M)
        → All
            (λ r. Keeps r.step)
            (runs_of (
              execute command
                (build_plan has_update_grub d b paths entry enable nvidia)
                stamp
                records
                m))
          × (any sets_default (build_commit_plan d b kernel).steps ≡ is_supported b)
    build_plan-Keeps_default has_update_grub paths entry enable nvidia kernel stamp records m = (
      execute-runs _ stamp records m (build_plan-Keeps has_update_grub paths entry enable nvidia),
      commit-sets kernel,
    )
