-- ===== src/Patches/Process.antt =====
-- `_process`, `check` and `apply` of src/autokernel/patches.py. What git does to a tree is given.
pub mod Apply
use autokernel.Base.{
  ℕ, zero, suc, Bool, true, false, not, ◌&&◌, ◌||◌, ◌==◌, ltb, List, [], ◌∷◌, ◌++◌, map, length,
  Option, none, some, Str, str, same, member, keep, all, any, starts_with, strip_prefix, lookup,
  join, if◌then◌else◌,
}
use autokernel.Base.Space.{is_nil, strip, splitlines, is_space, lines_from, drop_left, drop_right}
use autokernel.World.Waves.{contains_text}
use autokernel.Patches.Sets.{PatchSet, PatchMeta}

-- `[[^\]]*\]\s*`, or nothing: what stands behind it
unfoldable pub behind_bracket : Str → Option Str
behind_bracket [] = none
behind_bracket (c ∷ s) = if c == b']' then some (drop_left is_space s) else behind_bracket s

abbrev pub behind_tag : Str → Option Str
unfolding behind_bracket
behind_tag [] = none
behind_tag (c ∷ s) = if c == b'[' then behind_bracket s else none

-- `re.sub(r"^(\[[^\]]*\]\s*)+", "", s)`: a text has fewer tags than characters.
unfoldable pub without_tags : ℕ → Str → Str
unfolding behind_tag
without_tags zero s = s
without_tags (suc fuel) s = elim (behind_tag s) [ none ↦ s | some rest ↦ without_tags fuel rest ]

abbrev pub begins_with_space : Str → Bool
unfolding is_space
begins_with_space [] = false
begins_with_space (c ∷ s) = is_space c

unfoldable pub continuations : List Str → List Str
unfolding begins_with_space drop_left drop_right
continuations [] = []
continuations (line ∷ lines) =
    let rest = continuations lines in if begins_with_space line then strip line ∷ rest else []

abbrev pub subject_text : Str → Str
unfolding without_tags
subject_text s = strip (without_tags (length s) s)

unfoldable pub subject_in : List Str → Str
unfolding strip_prefix continuations join subject_text
subject_in [] = []
subject_in (line ∷ lines) = elim (strip_prefix (str "Subject:") line) [
  | none ↦ subject_in lines
  | some first ↦ subject_text (join (str " ") (strip first ∷ continuations lines))
]

-- `_patch_subject(p)`, on the text of the file
unfoldable pub patch_subject : Str → Str
unfolding subject_in lines_from
patch_subject text = subject_in (splitlines text)

pub data PatchResult : Type 0 where
  applied present conflict would_apply : PatchResult

pub record PatchOutcome : Type 0 where
  pub set_name : Str
  pub file : Str
  pub subject : Str
  pub sha256 : Str
  pub result : PatchResult
  pub detail : Str
  pub status : Str
  pub link : Str

-- What `git am` gives: the tree with the patch, or what it printed and the tree behind `--abort`.
pub data Am (M : Type 0) : Type 0 where
  taken : M → Am M
  refused : Str → M → Am M

-- The commands of git that are run on a tree, and what is read of a patch file.
pub record Git (M : Type 0) : Type 0 where
  pub series_present : M → List Str → Bool
  pub reverse_applies : M → Str → Bool
  pub am : M → Str → Am M
  pub patch_text : Str → Str
  pub sha256 : Str → Str

abbrev pub no_meta : PatchMeta
no_meta = record { status = []; link = []; upstream_subject = [] }

abbrev pub meta_or_none : Option PatchMeta → PatchMeta
meta_or_none none = no_meta
meta_or_none (some m) = m

abbrev pub last_or_empty : List Str → Str
last_or_empty [] = []
last_or_empty (line ∷ []) = line
last_or_empty (line ∷ next ∷ lines) = last_or_empty (next ∷ lines)

abbrev pub first_or : List Str → Str → Str
first_or [] other = other
first_or (line ∷ lines) other = line

-- The detail of a conflict
unfoldable pub conflict_detail : Str → Str
unfolding contains_text lines_from drop_left drop_right
conflict_detail output =
    let lines = splitlines (strip output) in
    first_or
      (keep (λ line. contains_text (str "error:") line || contains_text (str "patch failed") line)
        lines)
      (last_or_empty lines)

module _ {M : Type 0} (git : Git M) where
  unfoldable pub outcome_of : PatchSet → Str → PatchResult → Str → PatchOutcome
  unfolding patch_subject
  outcome_of ps p result detail =
      let m = meta_or_none (lookup p ps.meta) in
      record {
        set_name = ps.name;
        file = p;
        subject = patch_subject (git.patch_text p);
        sha256 = git.sha256 p;
        result = result;
        detail = detail;
        status = m.status;
        link = m.link;
      }

  -- The outcomes so far, whether there was a conflict, and the tree.
  pub record Processed : Type 0 where
    pub outcomes : List PatchOutcome
    pub stopped : Bool
    pub tree : M

  abbrev pub with_outcome : PatchOutcome → Processed → Processed
  with_outcome o r = record r { outcomes = o ∷ r.outcomes }

  module _ (dry_run : Bool) (ps : PatchSet) where
    unfoldable pub process_patches : Bool → List Str → M → Processed
    unfolding outcome_of conflict_detail
    process_patches whole_set_present [] tree = record {
      outcomes = [];
      stopped = false;
      tree = tree;
    }
    process_patches whole_set_present (p ∷ patches) tree =
        let skipped = process_patches whole_set_present patches tree in
        if whole_set_present || git.reverse_applies tree p
        then with_outcome (outcome_of ps p present []) skipped
        else elim (git.am tree p) [
          | refused output after ↦ record {
            outcomes = outcome_of ps p conflict (conflict_detail output) ∷ [];
            stopped = true;
            tree = after;
          }
          | taken after ↦
              with_outcome (outcome_of ps p (if dry_run then would_apply else applied) [])
                (process_patches whole_set_present patches after)
        ]

    unfoldable pub process_set : M → Processed
    unfolding process_patches
    process_set tree =
        process_patches (ltb 1 (length ps.patches) && git.series_present tree ps.patches) ps.patches
          tree

  abbrev pub behind : Processed → Processed → Processed
  behind first rest = record rest { outcomes = first.outcomes ++ rest.outcomes }

  unfoldable pub process : Bool → List PatchSet → M → Processed
  unfolding process_set
  process dry_run [] tree = record { outcomes = []; stopped = false; tree = tree }
  process dry_run (ps ∷ sets) tree =
      let first = process_set dry_run ps tree in
      let rest = process dry_run sets first.tree in
      if first.stopped then first else behind first rest
