-- ===== src/Policy/LoadBearing/Reasons.antt =====
-- Every load-bearing symbol has a reason, and only those do.
use autokernel.Base.{
  List, [], ◌∷◌, Str, Bool, true, false, ◌≡◌, refl, member, lookup, arith, if◌then◌else◌,
  Bool-cases, inl, inr, is_some,
}
use autokernel.Models.{Mount, NetworkLink, Snapshot}
use autokernel.Resolve.{ResolutionResult}
use autokernel.Policy.LoadBearing.{
  LoadBearingSet, empty, add, add_all, add_mounts, add_boot, add_luks, add_links, add_microcode,
  add_btf, add_unresolved, compute_load_bearing,
}

pub record IsExplained (lb : LoadBearingSet) : Type 0 where
  pub at : (s : Str) → is_some (lookup s lb.reasons) ≡ member s lb.symbols

IsExplained-add : (t r : Str) (lb : LoadBearingSet) → IsExplained lb → IsExplained (add lb t r)
unfolding add
IsExplained-add t r lb h = elim (Bool-cases (member t lb.symbols)) [
  | inl old ↦ rw old h
  | inr new ↦ rw new (record { at = λ s. ground (arith, h.at s) })
]

IsExplained-add_all :
    (r : Str) (syms : List Str) (lb : LoadBearingSet)
    → IsExplained lb
    → IsExplained (add_all r syms lb)
unfolding add_all
IsExplained-add_all r [] lb h = h
IsExplained-add_all r (t ∷ syms) lb h = IsExplained-add_all r syms _ (IsExplained-add t r lb h)

IsExplained-if :
    (b : Bool) (l m : LoadBearingSet)
    → IsExplained l
    → IsExplained m
    → IsExplained (if b then l else m)
IsExplained-if true l m hl hm = hl
IsExplained-if false l m hl hm = hm

IsExplained-add_mounts :
    (ms : List Mount) (lb : LoadBearingSet) → IsExplained lb → IsExplained (add_mounts ms lb)
unfolding add_mounts
IsExplained-add_mounts [] lb h = h
IsExplained-add_mounts (m ∷ ms) lb h =
    search (IsExplained-add_mounts ms, IsExplained-if, IsExplained-add_all)

IsExplained-add_links :
    (res : ResolutionResult) (nets : List NetworkLink) (lb : LoadBearingSet)
    → IsExplained lb
    → IsExplained (add_links res nets lb)
unfolding add_links
IsExplained-add_links res [] lb h = h
IsExplained-add_links res (n ∷ nets) lb h =
    search (IsExplained-add_links res nets, IsExplained-add_all)

IsExplained-add_unresolved :
    (mods : List Str) (lb : LoadBearingSet) → IsExplained lb → IsExplained (add_unresolved mods lb)
unfolding add_unresolved
IsExplained-add_unresolved [] lb h = h
IsExplained-add_unresolved (m ∷ mods) lb h =
    search (IsExplained-add_unresolved mods, IsExplained-add_all)

IsExplained-add_microcode :
    (snap : Snapshot) (lb : LoadBearingSet) → IsExplained lb → IsExplained (add_microcode snap lb)
unfolding add_microcode
IsExplained-add_microcode snap lb h = search (IsExplained-if, IsExplained-add)

IsExplained-add_boot :
    (snap : Snapshot) (lb : LoadBearingSet)
    → IsExplained lb
    → IsExplained (add_luks snap (add_boot snap lb))
unfolding add_luks add_boot
IsExplained-add_boot snap lb h = search (IsExplained-if, IsExplained-add_all)

IsExplained-add_btf :
    (snap : Snapshot) (lb : LoadBearingSet) → IsExplained lb → IsExplained (add_btf snap lb)
unfolding add_btf
IsExplained-add_btf snap lb h = search (IsExplained-if, IsExplained-add_all)

IsExplained-empty : IsExplained empty
IsExplained-empty = record { at = λ s. refl }

-- After `compute_load_bearing` a symbol is in the set exactly when it has a recorded reason.
pub compute_load_bearing-IsExplained :
    (snap : Snapshot) (res : ResolutionResult) → IsExplained (compute_load_bearing snap res)
unfolding compute_load_bearing
compute_load_bearing-IsExplained snap res =
    search
      (
        IsExplained-add_unresolved, IsExplained-add_all, IsExplained-add_btf,
        IsExplained-add_microcode, IsExplained-add_links, IsExplained-add_boot,
        IsExplained-add_mounts, IsExplained-empty,
      )
      depth 12
