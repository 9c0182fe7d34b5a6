-- ===== src/Install/Undo.antt =====
-- An installation of src/autokernel/install.py and then a rollback of src/autokernel/rollback.py.
use autokernel.Base.{
  Bool, true, false, not, ◌&&◌, List, [], ◌∷◌, map, Option, none, some, Str, ◌≡◌, refl, ap, ◌∙◌,
  inl, inr, all, same, eq_of_same, lookup, if◌then◌else◌, Bool-cases, arith,
}
use autokernel.Base.Dict.{set_key, lookup-set_key}
use autokernel.Install.Bootloader.{Bootloader, is_supported}
use autokernel.Install.Plan.{Distro, InstallStep}
use autokernel.Install.Execute.{Exit, ok, InstallRecord, Records, run_steps}
use autokernel.Install.Rollback.{
  is_open, keys, first_path, newest_first, find_latest_install_record, rollback_plan, with_mark,
  with_removal, plan_for, plan_at, remove_argv, package_name_from_path, paths_of, is_valid_rollback,
  mark_rolled_back, Undone, not_undone, undone, execute_rollback,
}

-- The latest open record but for one path.
unfoldable pub latest_but : Str → Records → Option Str
unfolding first_path newest_first
latest_but p records =
    first_path (λ path. is_open (lookup path records) && not (same path p)) (newest_first records)

abbrev pub next_of : Option Str → Records → Option Str
next_of none records = none
next_of (some p) records = latest_but p records

abbrev pub next_latest : Records → Option Str
next_latest records = next_of (find_latest_install_record records) records

abbrev pub records_of : {M : Type 0} → Undone M → Records → Records
records_of (not_undone why) records = records
records_of (undone r) records = r.records

abbrev pub succeeded : {M : Type 0} → Undone M → Bool
succeeded (not_undone why) = false
succeeded (undone r) = all ok r.runs

pub first_path-ext :
    (p q : Str → Bool)
    → ((x : Str) → p x ≡ q x)
    → (xs : List Str) → first_path p xs ≡ first_path q xs
unfolding first_path
first_path-ext p q h [] = refl
first_path-ext p q h (x ∷ xs) = rw (h x, first_path-ext p q h xs) refl

keys-set_key :
    (k : Str) (v w : Option InstallRecord) (records : Records)
    → lookup k records ≡ some w
    → keys (set_key k v records) ≡ keys records
unfolding set_key
keys-set_key k v w [] h = cc
keys-set_key k v w ((j, u) ∷ records) h = elim (Bool-cases (same k j)) [
  | inl eq ↦ rw eq refl
  | inr ne ↦ rw ne (ground (arith, keys-set_key k v w records))
]

is_open-with_mark :
    (p x : Str) (o : Option (Option InstallRecord)) (records : Records)
    → lookup p records ≡ o
    → is_open (lookup x (with_mark o p records)) ≡ (is_open (lookup x records) && not (same x p))
unfolding with_mark
is_open-with_mark p x (some (some r)) records h = elim (Bool-cases (same x p)) [
  | inl eq ↦
      rw (lookup-set_key x p (some (record r { rolled_back = true })) records, eq) (ground arith)
  | inr ne ↦
      rw (lookup-set_key x p (some (record r { rolled_back = true })) records, ne) (ground arith)
]
is_open-with_mark p x (some none) records h = elim (Bool-cases (same x p)) [
  | inl eq ↦ rw (eq_of_same x p eq, h) refl
  | inr ne ↦ rw ne (ground arith)
]
is_open-with_mark p x none records h = elim (Bool-cases (same x p)) [
  | inl eq ↦ rw (eq_of_same x p eq, h) refl
  | inr ne ↦ rw ne (ground arith)
]

first_path-is_open :
    (p : Str) (records : Records) (paths : List Str)
    → first_path (λ path. is_open (lookup path (with_mark (lookup p records) p records))) paths
      ≡ first_path (λ path. is_open (lookup path records) && not (same path p)) paths
first_path-is_open p records =
    first_path-ext _ _ (λ x. is_open-with_mark p x (lookup p records) records refl)

keys-with_mark :
    (p : Str) (o : Option (Option InstallRecord)) (records : Records)
    → lookup p records ≡ o
    → keys (with_mark o p records) ≡ keys records
unfolding with_mark
keys-with_mark p (some (some r)) records h = keys-set_key p _ _ records h
keys-with_mark p (some none) records h = refl
keys-with_mark p none records h = refl

-- After the mark, the latest is the next.
find_latest-mark :
    (o : Option Str) (records : Records)
    → find_latest_install_record records ≡ o
    → find_latest_install_record (mark_rolled_back o records) ≡ next_of o records
unfolding find_latest_install_record mark_rolled_back latest_but newest_first
find_latest-mark none records h = h
find_latest-mark (some p) records h =
    rw (keys-with_mark p (lookup p records) records refl) (first_path-is_open p records _)

module _ (has_update_grub : Bool) (d : Distro) (b : Bootloader) where
  with_removal-path :
      (path : Str) (names : List Str) (argv : Option (List Str))
      → (with_removal has_update_grub d b path names argv).record_path ≡ some path
        × ((with_removal has_update_grub d b path names argv).package_names ≡ names)
  unfolding with_removal
  with_removal-path path names none = (refl, refl)
  with_removal-path path names (some argv) = (refl, refl)

  plan_for-path :
      (path : Str) (names : List Str)
      → ((plan_for has_update_grub d b path names).record_path ≡ some path)
        × ((plan_for has_update_grub d b path names).package_names ≡ names)
  unfolding plan_for
  plan_for-path path names = elim (Bool-cases (is_supported b)) [
    | inl on ↦ rw on (with_removal-path path names (remove_argv d.family names))
    | inr off ↦ rw off (refl, refl)
  ]

  pub plan_at-path :
      (records : Records) (o : Option Str) → (plan_at has_update_grub d b records o).record_path ≡ o
  unfolding plan_at
  plan_at-path records none = refl
  plan_at-path records (some path) = (plan_for-path path _).0

  pub rollback_plan-plan_at :
      (records : Records) (o : Option Str)
      → find_latest_install_record records ≡ o
      → rollback_plan has_update_grub d b records ≡ plan_at has_update_grub d b records o
  unfolding rollback_plan
  rollback_plan-plan_at records o h = ap (plan_at has_update_grub d b records) h

  pub plan_at-names :
      (records : Records) (path : Str)
      → (plan_at has_update_grub d b records (some path)).package_names
        ≡ map package_name_from_path (paths_of (lookup path records))
  unfolding plan_at
  plan_at-names records path = (plan_for-path path _).1

  -- A rollback of which every step succeeds makes the record before the latest one the latest that is
  -- not rolled back. One that is refused, or of which a step fails, changes no record.
  pub find_latest-execute_rollback :
      {M : Type 0} (command : InstallStep → M → Exit × M) (records : Records) (m : M)
      → let plan = rollback_plan has_update_grub d b records in
        let out = execute_rollback command plan records m in
        find_latest_install_record (records_of out records)
        ≡ (if succeeded out then next_latest records else find_latest_install_record records)
  unfolding execute_rollback rollback_plan
  find_latest-execute_rollback command records m =
      let plan = rollback_plan has_update_grub d b records in
      let runs = (run_steps command plan.steps m).0 in
      elim (Bool-cases (is_valid_rollback plan)) [
        | inl valid ↦ elim (Bool-cases (all ok runs)) [
          | inl fine ↦
              rw (valid, fine)
                (ap (λ o. find_latest_install_record (mark_rolled_back o records))
                    (plan_at-path records _)
                  ∙ find_latest-mark _ records refl)
          | inr failed ↦ rw (valid, failed) refl
        ]
        | inr bad ↦ rw bad refl
      ]
