-- ===== src/Install/Plan.antt =====
-- The steps and plans of src/autokernel/install.py.
use autokernel.Base.{
  ℕ, Bool, true, false, not, List, [], ◌∷◌, ◌++◌, Option, none, some, Str, str, ◌==◌, if◌then◌else◌,
}
use autokernel.Base.Space.{is_nil}
use autokernel.Install.Bootloader.{
  Bootloader, BootloaderKind, is_supported, regenerate_cmd, set_default_argv, one_shot_argv,
}

pub data Family : Type 0 where
  debian fedora arch suse gentoo alpine nixos unknown_family : Family

pub record Distro : Type 0 where
  pub id : Str
  pub family : Family

pub record NvidiaDriverPlan : Type 0 where
  pub kernel_release : Str
  pub package_name : Str

pub record InstallStep : Type 0 where
  pub name : Str
  pub argv : List Str
  pub needs_root : Bool
  pub timeout : ℕ

pub data Rejected : Type 0 where
  unsupported_bootloader no_recipe no_default_recipe : Rejected

pub record InstallPlan : Type 0 where
  pub distro_id : Str
  pub bootloader_kind : BootloaderKind
  pub package_paths : List Str
  pub steps : List InstallStep
  pub rejected_reason : Option Rejected

-- A step as root, with the timeout that a step has by default.
abbrev pub root_step : Str → List Str → InstallStep
root_step name argv = record { name = name; argv = argv; needs_root = true; timeout = 600 }

abbrev pub package_tool : Family → Option (List Str)
package_tool debian = some (str "apt" ∷ str "install" ∷ str "-y" ∷ [])
package_tool fedora = some (str "dnf" ∷ str "install" ∷ str "-y" ∷ [])
package_tool arch = some (str "pacman" ∷ str "-U" ∷ str "--noconfirm" ∷ [])
package_tool suse = some (str "zypper" ∷ str "install" ∷ str "-y" ∷ [])
package_tool _ = none

abbrev pub with_args : Option (List Str) → List Str → Option (List Str)
with_args none args = none
with_args (some argv) args = some (argv ++ args)

unfoldable pub per_distro_install_argv : Distro → List Str → Option (List Str)
per_distro_install_argv d [] = none
per_distro_install_argv d (p ∷ paths) = with_args (package_tool d.family) (p ∷ paths)

unfoldable pub backup_step : Bootloader → InstallStep
backup_step b = record {
  name = str "capture_grub_state";
  argv =
      (if is_nil b.grub_tool_prefix then str "grub-editenv" else str "grub2-editenv")
      ∷ str "list"
      ∷ [];
  needs_root = false;
  timeout = 15;
}

-- `value.replace("'", "'\"'\"'")` within single quotes
unfoldable pub quote_escaped : Str → Str
quote_escaped [] = []
quote_escaped (c ∷ s) = if c == b'\'' then str "'\"'\"'" ++ quote_escaped s else c ∷ quote_escaped s

unfoldable pub sh_single_quote : Str → Str
unfolding quote_escaped
sh_single_quote s = b'\'' ∷ (quote_escaped s ++ str "'")

abbrev pub is_debian : Family → Bool
is_debian debian = true
is_debian _ = false

unfoldable pub nvidia_steps : Distro → NvidiaDriverPlan → List InstallStep
unfolding sh_single_quote
nvidia_steps d n =
    if not (is_debian d.family)
    then []
    else record (root_step (str "install_nvidia_driver")
        (str "apt" ∷ str "install" ∷ str "-y" ∷ n.package_name ∷ [])) { timeout = 1800 }
      ∷ record (root_step (str "build_nvidia_dkms")
          (str "dkms" ∷ str "autoinstall" ∷ str "-k" ∷ n.kernel_release ∷ [])) { timeout = 1800 }
      ∷ record (root_step (str "verify_nvidia_modules") (
          str "bash"
          ∷ str "-c"
          ∷ (str "set -e; k="
              ++ (sh_single_quote n.kernel_release
                  ++ str
                      "; for m in nvidia nvidia_modeset nvidia_drm nvidia_uvm; do modinfo -k \"$k\" \"$m\" >/dev/null; done"))
          ∷ [])) { timeout = 60 }
      ∷ root_step (str "refresh_initramfs")
          (str "update-initramfs" ∷ str "-u" ∷ str "-k" ∷ n.kernel_release ∷ [])
      ∷ []

abbrev pub optional_steps : Option NvidiaDriverPlan → Distro → List InstallStep
optional_steps none d = []
optional_steps (some n) d = nvidia_steps d n

-- A step, if there is a command for it.
abbrev pub step_of : Str → Option (List Str) → List InstallStep
step_of name none = []
step_of name (some argv) = root_step name argv ∷ []

-- `if enable_probation and kernel_entry is not None`
abbrev pub probation : Bool → Option Str → Bootloader → List InstallStep
probation true (some entry) b = step_of (str "arm_one_shot_boot") (one_shot_argv b entry)
probation _ _ b = []

abbrev pub rejected : Distro → Bootloader → List Str → Rejected → InstallPlan
rejected d b paths why = record {
  distro_id = d.id;
  bootloader_kind = b.kind;
  package_paths = paths;
  steps = [];
  rejected_reason = some why;
}

abbrev pub planned : Distro → Bootloader → List Str → List InstallStep → InstallPlan
planned d b paths steps = record {
  distro_id = d.id;
  bootloader_kind = b.kind;
  package_paths = paths;
  steps = steps;
  rejected_reason = none;
}

module _ (has_update_grub : Bool) (d : Distro) (b : Bootloader) where
  abbrev pub with_packages :
      Option (List Str) → List Str → Option Str → Bool → Option NvidiaDriverPlan → InstallPlan
  with_packages none paths entry enable_probation nvidia = rejected d b paths no_recipe
  with_packages (some argv) paths entry enable_probation nvidia = planned d b paths (
      backup_step b ∷ root_step (str "install_package") argv ∷ optional_steps nvidia d
      ++ (step_of (str "regenerate_bootloader") (regenerate_cmd has_update_grub b)
          ++ probation enable_probation entry b))

  unfoldable pub build_plan : List Str → Option Str → Bool → Option NvidiaDriverPlan → InstallPlan
  unfolding per_distro_install_argv backup_step nvidia_steps regenerate_cmd one_shot_argv
  build_plan paths entry enable_probation nvidia =
      if not (is_supported b)
      then rejected d b paths unsupported_bootloader
      else with_packages (per_distro_install_argv d paths) paths entry enable_probation nvidia

abbrev pub with_default : Distro → Bootloader → Option (List Str) → InstallPlan
with_default d b none = rejected d b [] no_default_recipe
with_default d b (some argv) = planned d b [] (root_step (str "commit_default") argv ∷ [])

unfoldable pub build_commit_plan : Distro → Bootloader → Str → InstallPlan
unfolding set_default_argv
build_commit_plan d b entry =
    if not (is_supported b)
    then rejected d b [] unsupported_bootloader
    else with_default d b (set_default_argv b entry)
