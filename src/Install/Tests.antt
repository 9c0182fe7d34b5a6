-- ===== src/Install/Tests.antt =====
-- A package installed on Debian with GRUB, and rolled back.
use autokernel.Base.{
  ◌+◌, ℕ, true, [], ◌∷◌, none, some, Str, str, ◌≡◌, refl, map, any, All, same, List, ends_with,
  starts_with, join, zero, suc,
}
use autokernel.Base.Space.{drop_left, drop_right, is_space}
use autokernel.Base.Int.{pos}
use autokernel.Install.Bootloader.{
  Bootloader, detect, default_probes, grub_entries, grub_entry_for_release,
}
use autokernel.Install.Plan.{
  Distro, debian, InstallStep, InstallPlan, build_plan, build_commit_plan,
}
use autokernel.Install.Execute.{Exit, exited, not_found, Records, execute}
use autokernel.Install.Rollback.{package_name_from_path}
use autokernel.Install.Entries.{IsChosen, grub_entry_for_release-IsChosen}
use autokernel.Install.FailFast.{Executes, execute-Executes}
use autokernel.Install.Default.{Keeps, runs_of, sets_default, build_plan-Keeps_default}

abbrev bookworm : Distro
bookworm = record { id = str "debian"; family = debian }

abbrev grub : Bootloader
unfolding detect default_probes same
grub = detect (λ path. same path (str "/boot/grub/grub.cfg")) default_probes

abbrev debs : List Str
debs = str "/tmp/out/linux-image-6.13.5_6.13.5-1_amd64.deb" ∷ []

-- The machine counts the commands; the one after the second is not found.
abbrev command : InstallStep → ℕ → Exit × ℕ
command s (suc (suc zero)) = (not_found, 3)
command s n = (exited (pos 0), n + 1)

abbrev plan : InstallPlan
unfolding build_plan
plan = build_plan true bookworm grub debs (some (str "6.13.5")) true none

abbrev before : Records
before = (str "20250101T000000Z", none) ∷ []

abbrev menu : Str
menu =
    str
      "menuentry 'Debian' --class os {\n}\nsubmenu 'Advanced' {\n  menuentry \"Debian, with Linux 6.13.5\" {\n  }\n}\n"

names_test : map package_name_from_path debs ≡ str "linux-image-6.13.5" ∷ []
unfolding package_name_from_path
names_test = refl

entries_test : grub_entries menu ≡ str "Debian" ∷ str "Advanced>Debian, with Linux 6.13.5" ∷ []
unfolding grub_entries starts_with drop_left drop_right is_space same ends_with join
entries_test = refl

entry_test :
    grub_entry_for_release (str "6.13.5") menu ≡ some (str "Advanced>Debian, with Linux 6.13.5")
unfolding grub_entry_for_release starts_with drop_left drop_right is_space same ends_with join
entry_test = refl

execute-Executes_example :
    Executes command plan
      (str "20250202T000000Z")
      before
      0
      (execute command plan (str "20250202T000000Z") before 0)
execute-Executes_example = execute-Executes command plan (str "20250202T000000Z") before 0

build_plan-Keeps_default_example :
    All (λ r. Keeps r.step) (runs_of (execute command plan (str "20250202T000000Z") before 0))
    × (any sets_default (build_commit_plan bookworm grub (str "6.13.5")).steps ≡ true)
unfolding build_plan detect grub
build_plan-Keeps_default_example =
    build_plan-Keeps_default bookworm grub command true debs (some (str "6.13.5")) true none
      (str "6.13.5") (str "20250202T000000Z") before 0

grub_entry_for_release-IsChosen_example :
    IsChosen (str "6.13.5") (grub_entries menu) (grub_entry_for_release (str "6.13.5") menu)
grub_entry_for_release-IsChosen_example = grub_entry_for_release-IsChosen (str "6.13.5") menu
