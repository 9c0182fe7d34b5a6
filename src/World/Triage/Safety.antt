-- ===== src/World/Triage/Safety.antt =====
-- A remedy that passes the check is within its limits.
use autokernel.Base.{
  Bool, true, false, ◌&&◌, List, [], ◌∷◌, ◌++◌, Option, none, some, Str, str, ◌≡◌, refl, sym, arith,
  same_refl, member, if◌then◌else◌, Bool-cases, inl, inr, All,
}
use autokernel.Base.Space.{is_nil}
use autokernel.World.Models.{PackageOverride, FailureClass, is_miscompile}
use autokernel.World.Triage.{
  nocheck_refused, RemedyDraft, TriageDraft, is_flag, Problem, problem_if, problems_of, is_action,
  check_flags, check_options, override_check, bare_override, remedy_of, draft_to_verdict,
  words_from, judge,
}

-- The remedy strips flags that were given, adds what looks like flags, drops options that were given,
-- and does not skip the tests of a miscompiled package.
pub record IsSane (effective global : List Str) (failure : FailureClass) (o : PackageOverride)
    : Type 0 where
  pub stripped : All (λ t. member t effective ≡ true) o.strip_flags
  pub added : All (λ t. is_flag t ≡ true) o.add_flags
  pub dropped : All (λ t. member t global ≡ true) o.strip_build_options
  pub tested : (member (str "nocheck") o.build_options && is_miscompile failure) ≡ false

no_problem :
    (p : Str → Problem) (ok : Str → Bool) (tokens : List Str)
    → problems_of p ok tokens ≡ []
    → All (λ t. ok t ≡ true) tokens
no_problem p ok [] h = tt
no_problem p ok (t ∷ tokens) h = elim (Bool-cases (ok t)) [
  | inl fine ↦ (fine, no_problem p ok tokens (ground (arith, fine, h)))
  | inr bad ↦ absurd (cc (rw bad at h))
]

nil-append {ℓ} : {A : Type ℓ} (xs ys : List A) → xs ++ ys ≡ [] → (xs ≡ []) × (ys ≡ [])
nil-append [] ys h = (refl, h)
nil-append (x ∷ xs) ys h = absurd (cc h)

nil_of_is_nil {ℓ} : {A : Type ℓ} (xs : List A) → is_nil xs ≡ true → xs ≡ []
nil_of_is_nil [] h = refl
nil_of_is_nil (x ∷ xs) h = cc

check_flags-nil :
    (r : RemedyDraft) (effective : List Str)
    → check_flags r effective ≡ []
    → is_action (str "strip-flags") r ≡ true
    → All (λ t. member t effective ≡ true) r.strip_flags × All (λ t. is_flag t ≡ true) r.add_flags
unfolding check_flags
check_flags-nil r effective h a =
    let parts = nil-append _ _ (rw a at h) in
    let lists = nil-append _ _ parts.1 in
    (
      no_problem _ (λ t. member t effective) r.strip_flags lists.0,
      no_problem _ is_flag r.add_flags lists.1,
    )

check_options-nil :
    (r : RemedyDraft) (global : List Str)
    → check_options r (some global) ≡ []
    → is_action (str "strip-build-options") r ≡ true
    → All (λ t. member t global ≡ true) r.strip_options
unfolding check_options
check_options-nil r global h a =
    let parts = nil-append _ _ (rw a at h) in
    no_problem _ (λ t. member t global) r.strip_options parts.1

-- A property of what a chain of branches gives, by that of each branch.
by_branch :
    (P : PackageOverride → Type 0) (b : Bool) (x : PackageOverride) (rest : Option PackageOverride)
    (o : PackageOverride)
    → (b ≡ true → P x)
    → (rest ≡ some o → P o)
    → (if b then some x else rest) ≡ some o
    → P o
by_branch P true x rest o here there e =
    let found : x ≡ o = ground (arith, e) in rw (sym found) (here refl)
by_branch P false x rest o here there e = there e

module _ (source : Str) (draft : TriageDraft) (effective global : List Str)
    (h : override_check draft effective (some global) ≡ []) where
  parts_nil :
      (check_flags draft.remedy effective ≡ [])
      × (check_options draft.remedy (some global) ≡ [])
      × (problem_if
            (is_action (str "nocheck") draft.remedy && is_miscompile draft.failure_class)
            nocheck_refused
          ≡ [])
  unfolding override_check
  parts_nil =
      let a = nil-append _ _ h in
      let b = nil-append _ _ a.1 in
      let c = nil-append _ _ b.1 in let d = nil-append _ _ c.1 in (c.0, d.0, d.1)

  refused_off : (b : Bool) → problem_if b nocheck_refused ≡ [] → b ≡ false
  refused_off true e = absurd (cc e)
  refused_off false e = refl

  plain-IsSane :
      IsSane effective global draft.failure_class (bare_override source draft.remedy.reason)
  plain-IsSane = record { stripped = tt; added = tt; dropped = tt; tested = refl }

  nothing : (o : PackageOverride) → none ≡ some o → IsSane effective global draft.failure_class o
  nothing o e = absurd (cc e)

  remedy_of-IsSane :
      (o : PackageOverride)
      → remedy_of source draft.remedy ≡ some o
      → IsSane effective global draft.failure_class o
  unfolding remedy_of
  remedy_of-IsSane o =
      let P = IsSane effective global draft.failure_class in
      by_branch P (is_action (str "nocheck") draft.remedy) _ _ o
        (λ a. record {
          stripped = tt;
          added = tt;
          dropped = tt;
          tested =
              let m = refused_off (is_miscompile draft.failure_class) (rw a at parts_nil.2) in
              rw (m, same_refl (str "nocheck")) refl;
        })
        (by_branch P (is_action (str "strip-flags") draft.remedy) _ _ o
          (λ a.
            let flags = check_flags-nil draft.remedy effective parts_nil.0 a in
            record { stripped = flags.0; added = flags.1; dropped = tt; tested = refl })
          (by_branch P (is_action (str "strip-build-options") draft.remedy) _ _ o
            (λ a. record {
              stripped = tt;
              added = tt;
              dropped = check_options-nil draft.remedy global parts_nil.1 a;
              tested = refl;
            })
            (by_branch P (is_action (str "force-gcc") draft.remedy) _ _ o
              (λ a. record { stripped = tt; added = tt; dropped = tt; tested = refl })
              (by_branch P (is_action (str "use-stock") draft.remedy) _ _ o
                (λ a. record { stripped = tt; added = tt; dropped = tt; tested = refl })
                (by_branch P (is_action (str "retry") draft.remedy) _ _ o (λ a. plain-IsSane)
                  (nothing o))))))

-- Whatever the model answers, a remedy that a verdict carries strips only flags that the build was
-- given, adds only what looks like flags, drops only the world's build options, and does not skip
-- the tests of a package that they caught miscompiled.
pub judge-IsSane :
    (source : Str) (draft : TriageDraft) (cflags : Str) (global : List Str) (o : PackageOverride)
    → (judge source draft cflags global).0.remedy ≡ some o
    → IsSane (words_from [] cflags) global draft.failure_class o
unfolding judge draft_to_verdict
judge-IsSane source draft cflags global o e =
    elim (Bool-cases (is_nil (override_check draft (words_from [] cflags) (some global)))) [
      | inl clear ↦
          remedy_of-IsSane source draft (words_from [] cflags) global (nil_of_is_nil _ clear) o
            (rw clear at e)
      | inr found ↦ absurd (cc (rw found at e))
    ]
