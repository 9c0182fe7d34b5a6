-- ===== src/Patches/Process/Apply/Whole.antt =====
-- What `apply` of src/autokernel/patches.py leaves, on every branch.
use autokernel.Base.{
  Bool, true, false, not, ◌&&◌, ◌||◌, List, [], ◌∷◌, ◌++◌, map, some, Str, ◌≡◌, all, keep,
}
use autokernel.Base.Space.{is_nil}
use autokernel.Patches.Version.{KernelVersion}
use autokernel.Patches.Sets.{PatchSet, applies_to}
use autokernel.Patches.Process.{conflict, PatchOutcome, Git, process}
use autokernel.Patches.Process.Apply.{
  WorkTree, Applied, ApplyError, patched, patch_error, does_not_apply, stop_iteration, has_in,
  restored,
}
use autokernel.Patches.Process.Apply.Outcomes.{file_of, all_patches}

-- The error for a patch that does not apply comes with the outcomes, the last of which is its own,
-- behind patches that are all in. Every other error comes before any patch.
abbrev pub IsError : List PatchSet → ApplyError → List PatchOutcome → Type 0
IsError sets stop_iteration outcomes = true ≡ false
IsError sets (does_not_apply bad) outcomes =
    (before : List PatchOutcome) × (rest : List Str) × (outcomes ≡ before ++ bad ∷ [])
    × (all has_in before ≡ true)
    × (bad.result ≡ conflict)
    × (map file_of before ++ bad.file ∷ rest ≡ all_patches sets)
IsError sets _ outcomes = outcomes ≡ []

module _ {M : Type 0} (git : Git M) (work : WorkTree M) (branch : Str) where
  -- What the sets need of the tree before any patch is applied.
  unfoldable pub is_ready : Bool → List PatchSet → M → KernelVersion → Bool
  unfolding applies_to
  is_ready allow_mismatch sets before kv =
      work.is_work_tree before
      && (is_nil (work.tracked_changes before)
          && (allow_mismatch || is_nil (keep (λ s. not (applies_to s kv)) sets)))

  -- The tree behind an error: it is as before, or the branch was left and deleted.
  abbrev pub IsLeft : List PatchSet → M → ApplyError → M → Type 0
  IsLeft sets before (does_not_apply bad) tree =
      (start : M) × (work.checkout_branch branch (work.head before) before ≡ some start)
      × (tree ≡ restored git work branch before (process git false sets start).tree)
  IsLeft sets before _ tree = tree ≡ before

  abbrev pub IsApplied : Bool → List PatchSet → M → Applied M → Type 0
  IsApplied allow_mismatch sets before (patched r tree) =
      (kv : KernelVersion) × (start : M) × (is_ready allow_mismatch sets before kv ≡ true)
      × (work.source_version before ≡ some kv)
      × (work.checkout_branch branch (work.head before) before ≡ some start)
      × (tree ≡ (process git false sets start).tree)
      × (all has_in r.outcomes ≡ true)
      × (map file_of r.outcomes ≡ all_patches sets)
  IsApplied allow_mismatch sets before (patch_error e outcomes tree) =
      IsError sets e outcomes × IsLeft sets before e tree
