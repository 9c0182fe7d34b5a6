-- ===== src/World/Waves.antt =====
-- `classify_cost` and `_assign_waves` of src/autokernel/world/closure.py. A set of sources is a list
-- of different texts.
pub mod Total
use autokernel.Base.{
  ℕ, zero, suc, ◌+◌, Bool, true, false, not, ◌&&◌, ◌||◌, List, [], ◌∷◌, ◌++◌, Option, none, some,
  Str, str, ltb, ◌==◌, if◌then◌else◌, same, member, any, keep, map, sorted, dedupe, dedupe_from,
  starts_with, length,
}
use autokernel.Base.Space.{is_nil}
use autokernel.Base.Dict.{set_key}

pub data BuildCost : Type 0 where
  tiny normal heavy monster : BuildCost

abbrev monster_prefixes : List Str
monster_prefixes =
    str "llvm"
    ∷ str "gcc-"
    ∷ str "webkit2gtk"
    ∷ str "chromium"
    ∷ str "libreoffice"
    ∷ str "rustc"
    ∷ str "firefox"
    ∷ []

abbrev linux_non_monster_markers : List Str
linux_non_monster_markers = str "firmware" ∷ str "meta" ∷ str "base" ∷ str "signed" ∷ []

abbrev heavy_prefixes : List Str
heavy_prefixes =
    str "glibc"
    ∷ str "systemd"
    ∷ str "perl"
    ∷ str "python3."
    ∷ str "openssl"
    ∷ str "binutils"
    ∷ str "gnutls28"
    ∷ str "cmake"
    ∷ str "nodejs"
    ∷ str "openjdk-"
    ∷ str "qt6-base"
    ∷ str "mesa"
    ∷ []

-- `m in s`
unfoldable pub contains_text : Str → Str → Bool
contains_text m [] = is_nil m
contains_text m (c ∷ s) = starts_with (c ∷ s) m || contains_text m s

abbrev pub is_kernel : Str → Bool
is_kernel source =
    same source (str "linux")
    || starts_with source (str "linux-")
      && not (any (λ m. contains_text m source) linux_non_monster_markers)

unfoldable pub classify_cost : Str → ℕ → BuildCost
unfolding contains_text
classify_cost source installed_kb =
    if is_kernel source || any (starts_with source) monster_prefixes
    then monster
    else if any (starts_with source) heavy_prefixes
    then heavy
    else if not (installed_kb == 0) && ltb installed_kb 300
    then tiny
    else normal

abbrev pub Deps : Type 0
Deps = List (Str × List Str)

abbrev pub keys {ℓ} : {V : Type ℓ} → List (Str × V) → List Str
keys = map (λ kv. kv.0)

-- `min(len(d) for d in remaining.values())`
unfoldable pub min_deps : List Str → Deps → ℕ
min_deps d [] = length d
min_deps d ((n, e) ∷ rest) = if ltb (length d) (length e) then min_deps d rest else min_deps e rest

abbrev pub with_deps : ℕ → Deps → List Str
with_deps n remaining = sorted (keys (keep (λ kv. length kv.1 == n) remaining))

-- The sources of the next wave, and whether they break a cycle.
abbrev pub forced : List Str → Deps → List Str × Bool
forced (r ∷ rs) remaining = (r ∷ rs, false)
forced [] [] = ([], true)
forced [] ((n, d) ∷ rest) = (with_deps (min_deps d rest) ((n, d) ∷ rest), true)

unfoldable pub ready_of : Deps → List Str × Bool
unfolding min_deps
ready_of remaining = forced (with_deps 0 remaining) remaining

-- `d.difference_update(ready)` on what stays
abbrev pub without : List Str → Deps → Deps
without ready remaining =
    map (λ kv. (kv.0, keep (λ x. not (member x ready)) kv.1))
      (keep (λ kv. not (member kv.0 ready)) remaining)

abbrev pub put_wave : ℕ → List Str → List (Str × ℕ) → List (Str × ℕ)
put_wave wave [] waves = waves
put_wave wave (name ∷ names) waves = put_wave wave names (set_key name wave waves)

pub record Waves : Type 0 where
  pub waves : List (Str × ℕ)
  pub cycle_members : List Str
  pub remaining : Deps

-- One round of the loop.
unfoldable pub next_wave : ℕ → Waves → Waves
unfolding ready_of
next_wave wave s =
    let (ready, cyclic) = ready_of s.remaining in
    record {
      waves = put_wave wave ready s.waves;
      cycle_members = if cyclic then s.cycle_members ++ ready else s.cycle_members;
      remaining = without ready s.remaining;
    }

-- The loop, on fuel; `none` where the fuel is spent.
unfoldable pub run_waves : ℕ → ℕ → Waves → Option Waves
unfolding next_wave
run_waves zero wave s = if is_nil s.remaining then some s else none
run_waves (suc fuel) wave s =
    let rest = run_waves fuel (suc wave) (next_wave wave s) in
    if is_nil s.remaining then some s else rest

abbrev pub waves_start : Deps → Waves
waves_start deps = record { waves = []; cycle_members = []; remaining = deps }

abbrev pub waves_result : Option Waves → Option (List (Str × ℕ) × List Str)
waves_result none = none
waves_result (some s) = some (s.waves, sorted (dedupe s.cycle_members))

-- There are no more waves than sources.
unfoldable pub assign_waves : Deps → Option (List (Str × ℕ) × List Str)
unfolding run_waves
assign_waves deps = waves_result (run_waves (length deps) 0 (waves_start deps))
