-- ===== src/Patches/Process/Apply.antt =====
-- `apply` of src/autokernel/patches.py, which leaves the tree as it was where a patch does not apply.
pub mod Outcomes
pub mod Whole
use autokernel.Base.{
  Bool, true, false, not, ◌&&◌, ◌||◌, List, [], ◌∷◌, Option, none, some, Str, all, keep,
  if◌then◌else◌,
}
use autokernel.Base.Space.{is_nil}
use autokernel.Patches.Version.{KernelVersion, version_text}
use autokernel.Patches.Sets.{PatchSet, applies_to}
use autokernel.Patches.Process.{
  PatchResult, applied, present, conflict, would_apply, PatchOutcome, Git, Processed, process,
}

-- The commands of git around the patches. A failed one that is checked gives none.
pub record WorkTree (M : Type 0) : Type 0 where
  pub is_work_tree : M → Bool
  pub tracked_changes : M → List Str
  pub source_version : M → Option KernelVersion
  pub head : M → Str
  pub symbolic_ref : M → Option Str
  pub checkout_branch : Str → Str → M → Option M
  pub checkout : Str → M → M
  pub delete_branch : Str → M → M

pub data ApplyError : Type 0 where
  not_a_tree no_version git_failed stop_iteration : ApplyError
  modified_files : List Str → ApplyError
  wrong_version : List PatchSet → ApplyError
  does_not_apply : PatchOutcome → ApplyError

pub record ApplyResult : Type 0 where
  pub branch : Str
  pub base_commit : Str
  pub head_commit : Str
  pub kernel_version : Str
  pub outcomes : List PatchOutcome

pub data Applied (M : Type 0) : Type 0 where
  patch_error : ApplyError → List PatchOutcome → M → Applied M
  patched : ApplyResult → M → Applied M

abbrev pub is_in : PatchResult → Bool
is_in applied = true
is_in present = true
is_in conflict = false
is_in would_apply = false

abbrev pub is_conflict : PatchResult → Bool
is_conflict conflict = true
is_conflict _ = false

abbrev pub has_in : PatchOutcome → Bool
has_in o = is_in o.result

-- `symbolic-ref` or the commit
abbrev pub ref_or : Option Str → Str → Str
ref_or none base = base
ref_or (some []) base = base
ref_or (some (c ∷ ref)) base = c ∷ ref

-- `next(o for o in outcomes if o.result == "conflict")`
abbrev pub first_bad : List PatchOutcome → ApplyError
first_bad [] = stop_iteration
first_bad (o ∷ outcomes) = does_not_apply o

module _ {M : Type 0} (git : Git M) (work : WorkTree M) (branch : Str) where
  abbrev pub restored : M → M → M
  restored before tree =
      work.delete_branch branch
        (work.checkout (ref_or (work.symbolic_ref before) (work.head before)) tree)

  unfoldable pub finish_apply : KernelVersion → M → Processed git → Applied M
  unfolding version_text
  finish_apply kv before r =
      if all has_in r.outcomes
      then patched
          (record {
            branch = branch;
            base_commit = work.head before;
            head_commit = work.head r.tree;
            kernel_version = version_text kv;
            outcomes = r.outcomes;
          })
          r.tree
      else patch_error (first_bad (keep (λ o. is_conflict o.result) r.outcomes)) r.outcomes
          (restored before r.tree)

  unfoldable pub on_branch : List PatchSet → KernelVersion → M → Option M → Applied M
  unfolding finish_apply process
  on_branch sets kv before none = patch_error git_failed [] before
  on_branch sets kv before (some tree) = finish_apply kv before (process git false sets tree)

  unfoldable pub for_version : Bool → List PatchSet → M → Option KernelVersion → Applied M
  unfolding on_branch applies_to
  for_version allow_mismatch sets before none = patch_error no_version [] before
  for_version allow_mismatch sets before (some kv) =
      let wrong = keep (λ s. not (applies_to s kv)) sets in
      if not allow_mismatch && not (is_nil wrong)
      then patch_error (wrong_version wrong) [] before
      else on_branch sets kv before (work.checkout_branch branch (work.head before) before)

  unfoldable pub apply : Bool → List PatchSet → M → Applied M
  unfolding for_version
  apply allow_mismatch sets before =
      if not (work.is_work_tree before)
      then patch_error not_a_tree [] before
      else if not (is_nil (work.tracked_changes before))
      then patch_error (modified_files (work.tracked_changes before)) [] before
      else for_version allow_mismatch sets before (work.source_version before)
