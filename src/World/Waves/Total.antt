-- ===== src/World/Waves/Total.antt =====
-- The loop of `_assign_waves` ends, and every source has a wave.
use mathlib.Core.Path.{subst}
use autokernel.Base.{
  ◌≢◌, ℕ, zero, suc, ◌≤◌, ◌<◌, Bool, true, false, not, ◌&&◌, ◌||◌, List, [], ◌∷◌, some, Str, ◌≡◌,
  refl, sym, ◌∙◌, arith, ltb, ◌==◌, same_iff, same_refl, member, any, keep, sorted, dedupe, length,
  lookup, is_some, Bool-cases, inl, inr, Option-cases, nil_or_cons,
}
use autokernel.Base.Space.{is_nil}
use autokernel.Base.Dict.{set_key, lookup-set_key}
use autokernel.Merge.Lookup.{member-sorted}
use autokernel.World.Waves.{
  Deps, keys, min_deps, with_deps, ready_of, without, put_wave, Waves, next_wave, run_waves,
  waves_start, assign_waves,
}

-- The keys with a property are some of the keys.
member-keys-keep :
    (p : Str × List Str → Bool) (s : Str) (deps : Deps)
    → member s (keys (keep p deps)) ≡ true
    → member s (keys deps) ≡ true
member-keys-keep p s [] h = h
member-keys-keep p s (kv ∷ deps) h = ground (arith, member-keys-keep p s deps, h)

min_deps-less :
    (m : Str) (d e : List Str) (deps : Deps)
    → ltb (length d) (length e) ≡ true
    → min_deps d ((m, e) ∷ deps) ≡ min_deps d deps
unfolding min_deps
min_deps-less m d e deps h = rw h refl

min_deps-more :
    (m : Str) (d e : List Str) (deps : Deps)
    → ltb (length d) (length e) ≡ false
    → min_deps d ((m, e) ∷ deps) ≡ min_deps e deps
unfolding min_deps
min_deps-more m d e deps h = rw h refl

or_swap : (a b c : Bool) → (a || c) ≡ true → (a || (b || c)) ≡ true
or_swap a b c h = ground (arith, h)

or_second : (a b : Bool) → b ≡ true → (a || b) ≡ true
or_second a b h = ground (arith, h)

min_deps-attained :
    (n : Str) (d : List Str) (deps : Deps)
    → any (λ kv. length kv.1 == min_deps d deps) ((n, d) ∷ deps) ≡ true
min_deps-attained n d [] = unfold min_deps in ground arith
min_deps-attained n d ((m, e) ∷ deps) =
    let here = min_deps-attained n d deps in
    let next = min_deps-attained m e deps in
    let of_length : ℕ → Type 0 =
      λ k. any (λ kv. length kv.1 == k) ((n, d) ∷ (m, e) ∷ deps) ≡ true in
    elim (Bool-cases (ltb (length d) (length e))) [
      | inl less ↦
          subst of_length (sym (min_deps-less m d e deps less))
            (or_swap (length d == min_deps d deps) _ _ here)
      | inr more ↦
          subst of_length (sym (min_deps-more m d e deps more))
            (or_second (length d == min_deps e deps) _ next)
    ]

first_key :
    (p : Str × List Str → Bool) (deps : Deps)
    → any p deps ≡ true
    → (s : Str) × (member s (keys (keep p deps)) ≡ true)
first_key p [] h = cc
first_key p (kv ∷ deps) h = elim (Bool-cases (p kv)) [
  | inl on ↦ (kv.0, rw (on, same_refl kv.0) refl)
  | inr off ↦ let (s, there) = first_key p deps (ground (arith, h, off)) in (s, rw off there)
]

with_deps-cons :
    (n : ℕ) (deps : Deps)
    → any (λ kv. length kv.1 == n) deps ≡ true
    → (s : Str) × (member s (with_deps n deps) ≡ true)
with_deps-cons n deps h =
    let (s, h) = first_key (λ kv. length kv.1 == n) deps h in (s, member-sorted s _ ∙ h)

length-without : (ready : List Str) (deps : Deps) → length (without ready deps) ≤ length deps
length-without ready [] = ground arith
length-without ready (kv ∷ deps) = ground (arith, length-without ready deps)

length-without_lt :
    (s : Str) (ready : List Str) (deps : Deps)
    → member s ready ≡ true
    → member s (keys deps) ≡ true
    → length (without ready deps) < length deps
length-without_lt s ready [] h k = ground (arith, k)
length-without_lt s ready (kv ∷ deps) h k =
    ground (arith, h, k, same_iff s kv.0, length-without ready deps, length-without_lt s ready deps)

with_deps-key :
    (n : ℕ) (s : Str) (deps : Deps)
    → member s (with_deps n deps) ≡ true
    → member s (keys deps) ≡ true
with_deps-key n s deps h =
    member-keys-keep (λ kv. length kv.1 == n) s deps (sym (member-sorted s _) ∙ h)

-- Where sources remain, one of them is ready.
ready_of-cons :
    (remaining : Deps)
    → is_nil remaining ≡ false
    → (s : Str) × (member s (ready_of remaining).0 ≡ true) × (member s (keys remaining) ≡ true)
unfolding ready_of
ready_of-cons [] h = cc
ready_of-cons ((n, d) ∷ rest) h = elim (nil_or_cons (with_deps 0 ((n, d) ∷ rest))) [
  | inl none_free ↦
      let (s, there) =
        with_deps-cons (min_deps d rest) ((n, d) ∷ rest) (min_deps-attained n d rest) in
      (s, rw none_free there, with_deps-key (min_deps d rest) s ((n, d) ∷ rest) there)
  | inr (r, rs, some_free) ↦
      let there : member r (with_deps 0 ((n, d) ∷ rest)) ≡ true =
        rw (some_free, same_refl r) refl in
      (r, rw (some_free, same_refl r) refl, with_deps-key 0 r ((n, d) ∷ rest) there)
]

run_waves-total :
    (fuel wave : ℕ) (s : Waves) → length s.remaining ≤ fuel → is_some (run_waves fuel wave s) ≡ true
unfolding run_waves
run_waves-total zero wave s h = ground (arith, h, nil_or_cons s.remaining)
run_waves-total (suc fuel) wave s h = elim (Bool-cases (is_nil s.remaining)) [
  | inl done ↦ rw done refl
  | inr more ↦
      let (x, ready, key) = ready_of-cons s.remaining more in
      let shorter = length-without_lt x (ready_of s.remaining).0 s.remaining ready key in
      rw more (
        run_waves-total fuel (suc wave) (next_wave wave s)
          (unfold next_wave in ground (arith, h, shorter)))
]

waved :
    (wave : ℕ) (names : List Str) (waves : List (Str × ℕ)) (x : Str)
    → is_some (lookup x (put_wave wave names waves)) ≡ (member x names || is_some (lookup x waves))
waved wave [] waves x = refl
waved wave (name ∷ names) waves x =
    ground (arith, waved wave names (set_key name wave waves) x, lookup-set_key x name wave waves)

member-without :
    (x : Str) (ready : List Str) (deps : Deps)
    → member x (keys (without ready deps)) ≡ (member x (keys deps) && not (member x ready))
member-without x ready [] = refl
member-without x ready (kv ∷ deps) = ground (arith, same_iff x kv.0, member-without x ready deps)

no_ready : (x : Str) → member x (ready_of []).0 ≢ true
unfolding ready_of sorted
no_ready x h = cc h

ready_of-keys :
    (x : Str) (remaining : Deps)
    → member x (ready_of remaining).0 ≡ true
    → member x (keys remaining) ≡ true
unfolding ready_of
ready_of-keys x [] h = absurd (no_ready x h)
ready_of-keys x ((n, d) ∷ rest) h = elim (nil_or_cons (with_deps 0 ((n, d) ∷ rest))) [
  | inl none_free ↦ with_deps-key (min_deps d rest) x ((n, d) ∷ rest) (rw none_free at h)
  | inr (r, rs, some_free) ↦ with_deps-key 0 x ((n, d) ∷ rest) (rw some_free (rw some_free at h))
]

covers_bool : (r w k : Bool) → (r ≡ true → k ≡ true) → ((r || w) || (k && not r)) ≡ (w || k)
covers_bool true w k h = rw (h refl) (ground arith)
covers_bool false w k h = ground arith

next_wave-covers :
    (wave : ℕ) (s : Waves) (x : Str)
    → (is_some (lookup x (next_wave wave s).waves) || member x (keys (next_wave wave s).remaining))
      ≡ (is_some (lookup x s.waves) || member x (keys s.remaining))
unfolding next_wave
next_wave-covers wave s x =
    let ready = (ready_of s.remaining).0 in
    rw (waved wave ready s.waves x, member-without x ready s.remaining)
      (covers_bool (member x ready) _ (member x (keys s.remaining)) (ready_of-keys x s.remaining))

-- The sources that have a wave and those that remain are those of the start.
run_waves-covers :
    (fuel wave : ℕ) (s out : Waves) (x : Str)
    → run_waves fuel wave s ≡ some out
    → is_some (lookup x out.waves) ≡ (is_some (lookup x s.waves) || member x (keys s.remaining))
unfolding run_waves
run_waves-covers zero wave s out x e = elim (nil_or_cons s.remaining) [
  | inl done ↦
      let same_state : s ≡ out = ground (arith, e, done) in rw (sym same_state, done) (ground arith)
  | inr (kv, kvs, more) ↦ absurd (cc (rw more at e))
]
run_waves-covers (suc fuel) wave s out x e = elim (nil_or_cons s.remaining) [
  | inl done ↦
      let same_state : s ≡ out = ground (arith, e, done) in rw (sym same_state, done) (ground arith)
  | inr (kv, kvs, more) ↦
      let ih =
        run_waves-covers fuel (suc wave) (next_wave wave s) out x (ground (arith, e, more)) in
      ih ∙ next_wave-covers wave s x
]

-- The loop ends, whatever depends on what, and a source has a wave exactly when it is one of the
-- sources that were given.
pub assign_waves-total :
    (deps : Deps) (x : Str)
    → (waves : List (Str × ℕ)) × (cycle_members : List Str) × (assign_waves deps
        ≡ some (waves, cycle_members))
      × (is_some (lookup x waves) ≡ member x (keys deps))
unfolding assign_waves
assign_waves-total deps x = elim (Option-cases (run_waves (length deps) 0 (waves_start deps))) [
  | inl e ↦ absurd (cc (rw e at (run_waves-total (length deps) 0 (waves_start deps) (omega arith))))
  | inr (out, e) ↦ (
    out.waves,
    sorted (dedupe out.cycle_members),
    rw e refl,
    run_waves-covers (length deps) 0 (waves_start deps) out x e,
  )
]
