-- ===== src/Install/Rollback.antt =====
-- src/autokernel/rollback.py: the plan that undoes the latest installation, and its execution. No
-- reading of a record fails that did not fail before.
use autokernel.Base.{
  Bool, true, false, ◌&&◌, not, ◌==◌, List, [], ◌∷◌, ◌++◌, map, Option, none, some, Str, str, all,
  is_some, sorted, lookup, if◌then◌else◌, strip_prefix,
}
use mathlib.Core.List.{reverse}
use autokernel.Base.Space.{is_nil}
use autokernel.Base.Dict.{set_key}
use autokernel.Install.Bootloader.{Bootloader, BootloaderKind, is_supported, regenerate_cmd}
use autokernel.Install.Plan.{
  Distro, Family, debian, fedora, arch, suse, InstallStep, root_step, step_of, with_args,
}
use autokernel.Install.Execute.{StepRun, ok, Exit, InstallRecord, Records, run_steps}

pub data NoRollback : Type 0 where
  no_install_record unsupported_loader no_removal_recipe : NoRollback

pub record RollbackPlan : Type 0 where
  pub record_path : Option Str
  pub distro_id : Str
  pub bootloader_kind : BootloaderKind
  pub package_names : List Str
  pub steps : List InstallStep
  pub rejected_reason : Option NoRollback

-- A record that can be read and was not rolled back.
abbrev pub is_open : Option (Option InstallRecord) → Bool
is_open (some (some r)) = not r.rolled_back
is_open _ = false

abbrev pub keys : Records → List Str
keys [] = []
keys ((k, r) ∷ records) = k ∷ keys records

-- The first path that passes the test.
unfoldable pub first_path : (Str → Bool) → List Str → Option Str
first_path p [] = none
first_path p (x ∷ xs) = if p x then some x else first_path p xs

unfoldable pub newest_first : Records → List Str
newest_first records = reverse (sorted (keys records))

unfoldable pub find_latest_install_record : Records → Option Str
unfolding first_path newest_first
find_latest_install_record records =
    first_path (λ path. is_open (lookup path records)) (newest_first records)

-- What stands before the end of a name, if the name has that end.
unfoldable pub strip_suffix : Str → Str → Option Str
unfolding strip_prefix
strip_suffix suffix name = elim (strip_prefix (reverse suffix) (reverse name)) [
  | none ↦ none
  | some front ↦ some (reverse front)
]

-- `path.name`
unfoldable pub last_part : Str → Str → Str
last_part seen [] = seen
last_part seen (c ∷ s) = if c == b'/' then last_part [] s else last_part (seen ++ c ∷ []) s

-- `s.split("_", 1)[0]`
unfoldable pub before_underscore : Str → Str
before_underscore [] = []
before_underscore (c ∷ s) = if c == b'_' then [] else c ∷ before_underscore s

abbrev pub without : Option Str → Str → Str
without none other = other
without (some name) other = name

unfoldable pub before_version : Option Str → Option Str
unfolding before_underscore
before_version none = none
before_version (some name) = some (before_underscore name)

unfoldable pub package_name : Str → Str
unfolding strip_suffix before_version
package_name name = without (before_version (strip_suffix (str ".deb") name)) (
    without (strip_suffix (str ".rpm") name) (
      without (strip_suffix (str ".pkg.tar.zst") name)
        (without (strip_suffix (str ".pkg.tar") name) name)))

unfoldable pub package_name_from_path : Str → Str
unfolding package_name last_part
package_name_from_path path = package_name (last_part [] path)

abbrev pub removal_tool : Family → Option (List Str)
removal_tool debian = some (str "apt" ∷ str "remove" ∷ str "-y" ∷ [])
removal_tool fedora = some (str "dnf" ∷ str "remove" ∷ str "-y" ∷ [])
removal_tool arch = some (str "pacman" ∷ str "-R" ∷ str "--noconfirm" ∷ [])
removal_tool suse = some (str "zypper" ∷ str "remove" ∷ str "-y" ∷ [])
removal_tool _ = none

unfoldable pub remove_argv : Family → List Str → Option (List Str)
remove_argv family [] = none
remove_argv family (n ∷ names) = with_args (removal_tool family) (n ∷ names)

-- `record.get("package_paths", [])`
abbrev pub paths_of : Option (Option InstallRecord) → List Str
paths_of (some (some r)) = r.package_paths
paths_of _ = []

module _ (has_update_grub : Bool) (d : Distro) (b : Bootloader) where
  abbrev pub rejection : Option Str → List Str → NoRollback → RollbackPlan
  rejection path names why = record {
    record_path = path;
    distro_id = d.id;
    bootloader_kind = b.kind;
    package_names = names;
    steps = [];
    rejected_reason = some why;
  }

  unfoldable pub with_removal : Str → List Str → Option (List Str) → RollbackPlan
  unfolding regenerate_cmd
  with_removal path names none = rejection (some path) names no_removal_recipe
  with_removal path names (some argv) = record {
    record_path = some path;
    distro_id = d.id;
    bootloader_kind = b.kind;
    package_names = names;
    steps =
        root_step (str "remove_package") argv
        ∷ step_of (str "regenerate_bootloader") (regenerate_cmd has_update_grub b);
    rejected_reason = none;
  }

  unfoldable pub plan_for : Str → List Str → RollbackPlan
  unfolding remove_argv with_removal
  plan_for path names =
      if not (is_supported b)
      then rejection (some path) names unsupported_loader
      else with_removal path names (remove_argv d.family names)

  unfoldable pub plan_at : Records → Option Str → RollbackPlan
  unfolding package_name_from_path plan_for
  plan_at records none = rejection none [] no_install_record
  plan_at records (some path) =
      plan_for path (map package_name_from_path (paths_of (lookup path records)))

  unfoldable pub rollback_plan : Records → RollbackPlan
  unfolding find_latest_install_record plan_at
  rollback_plan records = plan_at records (find_latest_install_record records)

abbrev pub is_valid_rollback : RollbackPlan → Bool
is_valid_rollback p = not (is_some p.rejected_reason) && not (is_nil p.steps)

-- `rolled_back: true` written into a record, which is left alone if it is no JSON or not there.
unfoldable pub with_mark : Option (Option InstallRecord) → Str → Records → Records
unfolding set_key
with_mark (some (some r)) path records =
    set_key path (some (record r { rolled_back = true })) records
with_mark _ path records = records

unfoldable pub mark_rolled_back : Option Str → Records → Records
unfolding with_mark
mark_rolled_back none records = records
mark_rolled_back (some path) records = with_mark (lookup path records) path records

pub record RolledBack (M : Type 0) : Type 0 where
  pub runs : List StepRun
  pub records : Records
  pub machine : M

-- The error, or the result.
pub data Undone (M : Type 0) : Type 0 where
  not_undone : Option NoRollback → Undone M
  undone : RolledBack M → Undone M

module _ {M : Type 0} (command : InstallStep → M → Exit × M) where
  unfoldable pub execute_rollback : RollbackPlan → Records → M → Undone M
  unfolding run_steps mark_rolled_back
  execute_rollback plan records m =
      let (rs, m1) = run_steps command plan.steps m in
      if not (is_valid_rollback plan)
      then not_undone plan.rejected_reason
      else undone (record {
        runs = rs;
        records = if all ok rs then mark_rolled_back plan.record_path records else records;
        machine = m1;
      })
