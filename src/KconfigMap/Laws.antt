-- ===== src/KconfigMap/Laws.antt =====
-- What `resolve_module_to_config` finds.
use autokernel.Base.{
  Bool, true, false, ◌||◌, List, [], ◌∷◌, Option, Str, ◌≡◌, arith, lookup, any, member, same_iff,
  same_refl, member-dedupe_from, member-append,
}
use autokernel.KconfigMap.{candidate_configs, is_enabled, normalize, config_of}

-- The symbol is the first of the candidates that the running configuration has as y or m.
pub data FirstEnabled (running : List (Str × Str)) : List Str → Str → Type 0 where
  here :
      {c : Str} {cs : List Str}
      → is_enabled (lookup c running) ≡ true
      → FirstEnabled running (c ∷ cs) c
  later :
      {c d : Str} {cs : List Str}
      → is_enabled (lookup c running) ≡ false
      → FirstEnabled running cs d
      → FirstEnabled running (c ∷ cs) d

or_true : (b : Bool) → (b || true) ≡ true
or_true b = ground arith

-- The module's own name is always a candidate, wherever its source lies.
pub candidate_configs-name :
    (name : Str) (path : Option Str)
    → member (config_of (normalize name)) (candidate_configs name path) ≡ true
unfolding candidate_configs
candidate_configs-name name path =
    simp (member-dedupe_from, member-append, same_refl (config_of (normalize name)), or_true)

any-member :
    (p : Str → Bool) (x : Str) (xs : List Str) → member x xs ≡ true → p x ≡ true → any p xs ≡ true
any-member p x [] h e = cc
any-member p x (y ∷ xs) h e = ground (arith, h, e, same_iff x y, any-member p x xs)
