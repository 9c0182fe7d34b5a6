-- ===== src/World/Builder/Resume/Again.antt =====
-- What a second run of the builder has to build.
use autokernel.Base.{
  ltb, All-right, All-left, All-append, ◌==◌, member, All-keep, All-imp, ℕ, zero, suc, Bool, true,
  false, not, ◌&&◌, ◌||◌, List, [], ◌∷◌, ◌++◌, Option, some, Str, ◌≡◌, refl, ◌∙◌, ap, arith,
  if◌then◌else◌, same, same_refl, any, any-append, keep, All, lookup, Bool-cases, inl, inr,
}
use autokernel.Base.Dict.{lookup-set_key}
use autokernel.World.Exceptions.{find_override}
use autokernel.World.Builder.{
  PackageOverride, SourceUnit, PackageBuildRecord, unit_dir, WorldDir, load_record, needs_build,
  is_done,
}
use autokernel.World.Builder.Build.{Attempt, Run, flags_hash, build_unit, finish, run_build}
use autokernel.World.Builder.Accepted.{passes, build_unit-passes}
use autokernel.World.Builder.Resume.{
  limited, take, only_of, Pending, pending_units, add_wave, by_wave_from, units_of, Waves,
  wave_order, build_all, chosen_units, build_world, apply_exceptions,
}

-- A unit with this directory is among them.
abbrev pub has_dir : Str → List SourceUnit → Bool
has_dir d = any (λ u. same d (unit_dir u))

-- Every unit with the directory of `u` is `u`.
abbrev pub Names : SourceUnit → List SourceUnit → Type 0
Names u = All (λ v. same (unit_dir u) (unit_dir v) ≡ true → v ≡ u)

module _ (p : SourceUnit → Bool) where
  any-add_wave :
      (u : SourceUnit) (g : Waves) → any p (units_of (add_wave u g)) ≡ (p u || any p (units_of g))
  unfolding add_wave
  any-add_wave u [] = refl
  any-add_wave u ((w, us) ∷ g) = ground (
    arith,
    any-append p us (units_of g),
    any-append p us (units_of (add_wave u g)),
    any-append p (us ++ u ∷ []) (units_of g),
    any-append p us (u ∷ []),
    any-add_wave u g,
  )

  any-by_wave_from :
      (g : Waves) (us : List SourceUnit)
      → any p (units_of (by_wave_from g us)) ≡ (any p us || any p (units_of g))
  any-by_wave_from g [] = refl
  any-by_wave_from g (u ∷ us) =
      any-by_wave_from (add_wave u g) us ∙ ground (arith, any-add_wave u g)

  pub any-wave_order : (us : List SourceUnit) → any p (wave_order us) ≡ any p us
  unfolding wave_order
  any-wave_order us = any-by_wave_from [] us ∙ ground arith

and_true : (b : Bool) → (b && true) ≡ b
and_true b = ground arith

two_tests {ℓ} :
    {A : Type ℓ} (b t : Bool) (x y : A) (z : Option A)
    → (t ≡ true → y ≡ x)
    → (if b then some x else if t then some y else z) ≡ (if t || b then some x else z)
two_tests true true x y z h = refl
two_tests true false x y z h = refl
two_tests false true x y z h = rw (h refl) refl
two_tests false false x y z h = refl

module _ (run : Run) (attempts : SourceUnit → Attempt) where
  -- The record of a build does not depend on what is on disk.
  abbrev record_of : SourceUnit → PackageBuildRecord
  record_of u =
      finish u (flags_hash run u.source)
        (run_build run.flags (find_override u.source run.overrides) (attempts u))

  lookup-build_all :
      (u : SourceUnit) (us : List SourceUnit) (w : WorldDir)
      → Names u us
      → lookup (unit_dir u) (build_all run attempts us w).1.records
        ≡ (if has_dir (unit_dir u) us then some (record_of u) else lookup (unit_dir u) w.records)
  unfolding build_all build_unit
  lookup-build_all u [] w h = refl
  lookup-build_all u (v ∷ us) w h =
      lookup-build_all u us (build_unit run v (attempts v) w).1 h.1
      ∙ rw (lookup-set_key (unit_dir u) (unit_dir v) (record_of v) w.records) (
          two_tests (has_dir (unit_dir u) us) (same (unit_dir u) (unit_dir v)) _ _ _
            (λ e. ap record_of (h.0 e)))

  abbrev pub passed : SourceUnit → Bool
  passed u = passes run.flags (find_override u.source run.overrides) (attempts u)

  is_done-record_of :
      (u : SourceUnit) → is_done (flags_hash run u.source) (some (record_of u)) ≡ passed u
  unfolding build_unit
  is_done-record_of u = rw same_refl (
      unfold build_unit in
      and_true _
      ∙ (build_unit-passes run u (attempts u) (record { records = []; published = [] })).0)

  is_done-build_all :
      (u : SourceUnit) (us : List SourceUnit) (w : WorldDir)
      → Names u us
      → is_done (flags_hash run u.source) (load_record (build_all run attempts us w).1 u) ≡ (
          if has_dir (unit_dir u) us
          then passed u
          else is_done (flags_hash run u.source) (load_record w u))
  is_done-build_all u us w h = elim (Bool-cases (has_dir (unit_dir u) us)) [
    | inl d ↦ rw (lookup-build_all u us w h, d) (is_done-record_of u)
    | inr d ↦ rw (lookup-build_all u us w h, d) refl
  ]

  -- The chosen units are among those that need a build.
  abbrev AreNeeded : List SourceUnit → List SourceUnit → WorldDir → Type 0
  AreNeeded us units w =
      All (λ u. has_dir (unit_dir u) us ≡ true → needs_build w u (flags_hash run u.source) ≡ true)
        units

  to_build-build_all :
      (units us : List SourceUnit) (w : WorldDir)
      → All (λ u. Names u us) units
      → AreNeeded us units w
      → (pending_units run units (build_all run attempts us w).1).to_build
        ≡ keep (λ u. not (has_dir (unit_dir u) us && passed u)) (pending_units run units w).to_build
  unfolding pending_units needs_build
  to_build-build_all [] us w h n = refl
  to_build-build_all (u ∷ units) us w h n =
      ground (arith, is_done-build_all u us w h.0, n.0, to_build-build_all units us w h.1 n.1)

pending-All {ℓ} :
    (P : SourceUnit → Type ℓ) (s n : Bool) (u : SourceUnit) (rest : Pending)
    → (n ≡ true → P u)
    → All P rest.to_build
    → All P
        (if s
          then record rest { stock = u ∷ rest.stock }
          else if n
          then record rest { to_build = u ∷ rest.to_build }
          else record rest { done = u ∷ rest.done }).to_build
pending-All P true n u rest p h = h
pending-All P false true u rest p h = (p refl, h)
pending-All P false false u rest p h = h

-- What holds of all units holds of all that are chosen from them.
module _ {ℓ} (P : SourceUnit → Type ℓ) where
  All-add_wave :
      (u : SourceUnit) (g : Waves) → P u → All P (units_of g) → All P (units_of (add_wave u g))
  unfolding add_wave
  All-add_wave u [] p h = (p, tt)
  All-add_wave u ((wave, us) ∷ g) p h = elim (Bool-cases (u.wave == wave)) [
    | inl e ↦ rw e (
        All-append P (us ++ u ∷ []) (units_of g)
          (All-append P us (u ∷ []) (All-left P us (units_of g) h) (p, tt))
          (All-right P us (units_of g) h))
    | inr n ↦ rw n (elim (Bool-cases (ltb u.wave wave)) [
      | inl l ↦ rw l (p, h)
      | inr m ↦ rw m (
          All-append P us (units_of (add_wave u g)) (All-left P us (units_of g) h)
            (All-add_wave u g p (All-right P us (units_of g) h)))
    ])
  ]

  All-by_wave_from :
      (g : Waves) (us : List SourceUnit)
      → All P us
      → All P (units_of g)
      → All P (units_of (by_wave_from g us))
  All-by_wave_from g [] h k = k
  All-by_wave_from g (u ∷ us) h k = All-by_wave_from (add_wave u g) us h.1 (All-add_wave u g h.0 k)

  All-take : (n : ℕ) (us : List SourceUnit) → All P us → All P (take n us)
  All-take zero us h = tt
  All-take (suc n) [] h = tt
  All-take (suc n) (u ∷ us) h = (h.0, All-take n us h.1)

  All-limited : (n : ℕ) (us : List SourceUnit) → All P us → All P (limited n us)
  All-limited zero us h = h
  All-limited (suc n) us h = All-take (suc n) us h

  All-only_of : (only : List Str) (us : List SourceUnit) → All P us → All P (only_of only us)
  All-only_of [] us h = h
  All-only_of (s ∷ only) us h = All-keep P (λ u. member u.source (s ∷ only)) us h

  All-chosen_units :
      (run : Run) (units : List SourceUnit) (only : List Str) (limit : ℕ) (w : WorldDir)
      → All P (pending_units run units w).to_build
      → All P (chosen_units run units only limit w)
  unfolding chosen_units wave_order
  All-chosen_units run units only limit w h =
      All-by_wave_from [] _ (All-limited limit _ (All-only_of only _ h)) tt

  All-to_build :
      (run : Run) (units : List SourceUnit) (w : WorldDir)
      → All P units
      → All P (pending_units run units w).to_build
  unfolding pending_units
  All-to_build run [] w h = tt
  All-to_build run (u ∷ units) w h = pending-All P _ _ u _ (λ e. h.0) (All-to_build run units w h.1)

to_build-needed :
    (run : Run) (units : List SourceUnit) (w : WorldDir)
    → All
        (λ u. needs_build w u (flags_hash run u.source) ≡ true)
        (pending_units run units w).to_build
unfolding pending_units
to_build-needed run [] w = tt
to_build-needed run (u ∷ units) w =
    pending-All _ u.use_stock _ u _ (λ e. e) (to_build-needed run units w)

found {ℓ} :
    (Q : SourceUnit → Type ℓ) (u : SourceUnit) (us : List SourceUnit)
    → All Q us
    → Names u us
    → has_dir (unit_dir u) us ≡ true
    → Q u
found Q u [] q n h = cc
found Q u (v ∷ us) q n h = elim (Bool-cases (same (unit_dir u) (unit_dir v))) [
  | inl e ↦ rw (← n.0 e) q.0
  | inr d ↦ found Q u us q.1 n.1 (rw d at h)
]

-- Where units with one directory are one unit, the next run has to build what this run had to build
-- and did not build with success, be it that a build failed or that the unit was not chosen.
pub to_build-build_world :
    (exceptions : List PackageOverride) (manifest : Run) (attempts : SourceUnit → Attempt)
    (units : List SourceUnit) (only : List Str) (limit : ℕ) (w : WorldDir)
    → All (λ u. Names u units) units
    → (pending_units
        (apply_exceptions exceptions manifest)
        units
        (build_world exceptions manifest attempts units only limit w).1).to_build
      ≡ keep
          (λ u. not (
            has_dir
              (unit_dir u)
              (chosen_units (apply_exceptions exceptions manifest) units only limit w)
            && passed (apply_exceptions exceptions manifest) attempts u))
          (pending_units (apply_exceptions exceptions manifest) units w).to_build
unfolding build_world
to_build-build_world exceptions manifest attempts units only limit w names =
    let run = apply_exceptions exceptions manifest in
    let chosen = chosen_units run units only limit w in
    let named =
      All-imp (λ u. Names u units) (λ u. Names u chosen) units
        (λ u h. All-chosen_units _ run units only limit w (All-to_build _ run units w h)) names in
    let needed =
      All-chosen_units (λ u. needs_build w u (flags_hash run u.source) ≡ true) run units only limit
        w (to_build-needed run units w) in
    to_build-build_all run attempts units chosen w named
      (All-imp (λ u. Names u chosen) _ units (λ u h. found _ u chosen needed h) named)
