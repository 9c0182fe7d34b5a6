-- ===== src/Patches/Process/Apply/Outcomes.antt =====
-- The outcomes of the patches in src/autokernel/patches.py, dry and not.
use autokernel.Base.{
  Bool, true, false, ◌&&◌, ◌||◌, List, [], ◌∷◌, ◌++◌, map, Str, ◌≡◌, refl, ap, sym, ◌∙◌, ◌⊎◌, inl,
  inr, all, if◌then◌else◌, Bool-cases, arith, append_assoc, map-append,
}
use autokernel.Patches.Sets.{PatchSet}
use autokernel.Patches.Process.{
  PatchResult, applied, present, conflict, would_apply, PatchOutcome, Git, Am, taken, refused,
  Processed, process, process_set, process_patches, outcome_of, with_outcome, behind,
}
use autokernel.Patches.Process.Apply.{has_in}

abbrev pub dry_result : PatchResult → PatchResult
dry_result applied = would_apply
dry_result r = r

-- The outcome as a dry run reports it.
abbrev pub as_dry : PatchOutcome → PatchOutcome
as_dry o = record o { result = dry_result o.result }

abbrev pub file_of : PatchOutcome → Str
file_of o = o.file

abbrev pub all_patches : List PatchSet → List Str
all_patches [] = []
all_patches (ps ∷ sets) = ps.patches ++ all_patches sets

pub all-append {ℓ} :
    {A : Type ℓ} (p : A → Bool) (xs ys : List A) → all p (xs ++ ys) ≡ (all p xs && all p ys)
all-append p [] ys = refl
all-append p (x ∷ xs) ys = ground (arith, all-append p xs ys)

module _ {M : Type 0} (git : Git M) where
  -- All patches are in, or all up to one that is in conflict.
  abbrev pub InOrder : List Str → Processed git → Type 0
  InOrder patches r =
      ((r.stopped ≡ false) × (all has_in r.outcomes ≡ true) × (map file_of r.outcomes ≡ patches))
      ⊎ ((r.stopped ≡ true)
          × (before : List PatchOutcome) × (bad : PatchOutcome) × (rest : List Str) × (r.outcomes
              ≡ before ++ bad ∷ [])
          × (all has_in before ≡ true)
          × (bad.result ≡ conflict)
          × (map file_of before ++ bad.file ∷ rest ≡ patches))

  InOrder-cons :
      (o : PatchOutcome) (patches : List Str) (r : Processed git)
      → has_in o ≡ true
      → InOrder patches r
      → InOrder (o.file ∷ patches) (with_outcome git o r)
  InOrder-cons o patches r h (inl (s, i, f)) = inl (s, rw (h, i) refl, ap (o.file ∷◌) f)
  InOrder-cons o patches r h (inr (s, before, bad, rest, e, i, c, f)) =
      inr (s, o ∷ before, bad, rest, ap (o ∷◌) e, rw (h, i) refl, c, ap (o.file ∷◌) f)

  Am-cases :
      (a : Am M)
      → ((after : M) × (a ≡ taken after))
        ⊎ ((output : Str) × (after : M) × (a ≡ refused output after))
  Am-cases (taken after) = inl (after, refl)
  Am-cases (refused output after) = inr (output, after, refl)

  process_patches-InOrder :
      (ps : PatchSet) (whole : Bool) (patches : List Str) (tree : M)
      → InOrder patches (process_patches git false ps whole patches tree)
  unfolding process_patches outcome_of
  process_patches-InOrder ps whole [] tree = inl (refl, refl, refl)
  process_patches-InOrder ps whole (p ∷ patches) tree =
      elim (Bool-cases (whole || git.reverse_applies tree p)) [
        | inl there ↦ rw there (
            InOrder-cons (outcome_of git ps p present []) patches
              (process_patches git false ps whole patches tree) refl
              (process_patches-InOrder ps whole patches tree))
        | inr new ↦ elim (Am-cases (git.am tree p)) [
          | inl (after, e) ↦
              rw (new, e)
                (InOrder-cons (outcome_of git ps p applied []) patches
                  (process_patches git false ps whole patches after) refl
                  (process_patches-InOrder ps whole patches after))
          | inr (output, after, e) ↦
              rw (new, e) (inr (refl, [], _, patches, refl, refl, refl, refl))
        ]
      ]

  InOrder-behind :
      (xs ys : List Str) (first rest : Processed git)
      → InOrder xs first
      → InOrder ys rest
      → InOrder (xs ++ ys) (if first.stopped then first else behind git first rest)
  InOrder-behind xs ys first rest (inr (s, before, bad, left, e, i, c, f)) h = rw s (
      inr (
        refl,
        before,
        bad,
        left ++ ys,
        e,
        i,
        c,
        sym (append_assoc (map file_of before) (bad.file ∷ left) ys) ∙ ap (λ l. l ++ ys) f,
      ))
  InOrder-behind xs ys first rest (inl (s, i, f)) (inl (t, j, g)) = rw s (
      inl (
        t,
        all-append has_in first.outcomes rest.outcomes ∙ rw (i, j) refl,
        map-append file_of first.outcomes rest.outcomes ∙ rw (f, g) refl,
      ))
  InOrder-behind xs ys first rest (inl (s, i, f)) (inr (t, before, bad, left, e, j, c, g)) = rw s (
      inr (
        t,
        first.outcomes ++ before,
        bad,
        left,
        ap (λ l. first.outcomes ++ l) e ∙ sym (append_assoc first.outcomes before (bad ∷ [])),
        all-append has_in first.outcomes before ∙ rw (i, j) refl,
        c,
        ap (λ l. l ++ bad.file ∷ left) (map-append file_of first.outcomes before)
            ∙ (append_assoc (map file_of first.outcomes) (map file_of before) (bad.file ∷ left)
                ∙ rw (f, g) refl),
      ))

  pub process-InOrder :
      (sets : List PatchSet) (tree : M) → InOrder (all_patches sets) (process git false sets tree)
  unfolding process process_set
  process-InOrder [] tree = inl (refl, refl, refl)
  process-InOrder (ps ∷ sets) tree =
      let first = process_set git false ps tree in
      InOrder-behind ps.patches (all_patches sets) first (process git false sets first.tree)
        (process_patches-InOrder ps _ ps.patches tree) (process-InOrder sets first.tree)

  abbrev pub dry : Processed git → Processed git
  dry r = record r { outcomes = map as_dry r.outcomes }

  process_patches-dry :
      (ps : PatchSet) (whole : Bool) (patches : List Str) (tree : M)
      → process_patches git true ps whole patches tree
        ≡ dry (process_patches git false ps whole patches tree)
  unfolding process_patches outcome_of
  process_patches-dry ps whole [] tree = refl
  process_patches-dry ps whole (p ∷ patches) tree =
      elim (Bool-cases (whole || git.reverse_applies tree p)) [
        | inl there ↦ rw (there, process_patches-dry ps whole patches tree) refl
        | inr new ↦ elim (Am-cases (git.am tree p)) [
          | inl (after, e) ↦ rw (new, e) (rw (process_patches-dry ps whole patches after) refl)
          | inr (output, after, e) ↦ rw (new, e) refl
        ]
      ]

  behind-dry :
      (first rest : Processed git)
      → (if first.stopped then dry first else behind git (dry first) (dry rest))
        ≡ dry (if first.stopped then first else behind git first rest)
  behind-dry first rest = elim (Bool-cases first.stopped) [
    | inl s ↦ rw s refl
    | inr s ↦ rw s (
        ap (λ os. record rest { outcomes = os })
          (sym (map-append as_dry first.outcomes rest.outcomes)))
  ]

  -- A dry run tells what applying does: it has the same outcomes, with `would-apply` for `applied`,
  -- stops at the same patch, and leaves its tree as applying leaves the real one.
  pub process-dry :
      (sets : List PatchSet) (tree : M)
      → process git true sets tree ≡ dry (process git false sets tree)
  unfolding process process_set
  process-dry [] tree = refl
  process-dry (ps ∷ sets) tree =
      let first = process_set git false ps tree in
      rw (process_patches-dry ps _ ps.patches tree)
        (rw (process-dry sets first.tree) (behind-dry first (process git false sets first.tree)))
