-- ===== src/Policy/LoadBearing/Exact.antt =====
-- Exactly which symbols `compute_load_bearing` protects, and that each has its reason.
use mathlib.Core.Bool.{or-false, or_assoc}
use autokernel.Base.{
  List, [], ◌∷◌, Str, str, none, Bool, true, false, ◌&&◌, ◌||◌, ◌≡◌, sym, same, same_iff, member,
  any, arith, if◌then◌else◌,
}
use autokernel.Models.{Mount, NetworkLink, Snapshot}
use autokernel.Resolve.{ResolutionResult, fs_to_config}
use autokernel.KconfigMap.{candidate_configs}
use autokernel.Policy.Blocklists.{hard_blocklist, arch_blocklist, btf_load_bearing}
use autokernel.Policy.LoadBearing.{
  LoadBearingSet, add, add_all, get_list, is_boot_target, add_mounts, add_boot, add_luks,
  link_configs, add_links, add_microcode, needs_btf, add_btf, add_unresolved, compute_load_bearing,
}

pub member-add :
    (s t r : Str) (lb : LoadBearingSet)
    → member s (add lb t r).symbols ≡ (member s lb.symbols || same s t)
unfolding add
member-add s t r lb = ground (arith, same_iff s t)

pub member-add_all :
    (s r : Str) (syms : List Str) (lb : LoadBearingSet)
    → member s (add_all r syms lb).symbols ≡ (member s lb.symbols || member s syms)
unfolding add_all
member-add_all s r [] lb = sym (or-false _)
member-add_all s r (t ∷ syms) lb =
    ground (arith, member-add_all s r syms (add lb t r), member-add s t r lb)

-- A guarded round adds its symbols exactly when the guard holds.
member-add_if :
    (s r : Str) (b : Bool) (syms : List Str) (lb : LoadBearingSet)
    → member s (if b then add_all r syms lb else lb).symbols
      ≡ (member s lb.symbols || b && member s syms)
member-add_if s r true syms lb = member-add_all s r syms lb
member-add_if s r false syms lb = sym (or-false _)

-- What each part of the snapshot protects, said of one symbol.
abbrev pub by_mounts : Str → List Mount → Bool
by_mounts s = any (λ m. is_boot_target m.target && member s (get_list m.fstype fs_to_config))

abbrev pub by_links : Str → ResolutionResult → List NetworkLink → Bool
by_links s res = any (λ n. member s (link_configs res n n.driver))

abbrev pub by_unresolved : Str → List Str → Bool
by_unresolved s = any (λ m. member s (candidate_configs m none))

abbrev pub by_boot : Str → Snapshot → Bool
by_boot s snap =
    snap.efi && member s (str "CONFIG_EFI" ∷ str "CONFIG_EFI_STUB" ∷ [])
    || snap.luks_in_chain
      && member s (str "CONFIG_DM_CRYPT" ∷ str "CONFIG_CRYPTO_AES" ∷ str "CONFIG_CRYPTO_XTS" ∷ [])

abbrev pub by_cpu : Str → Snapshot → Bool
by_cpu s snap =
    if same snap.vendor_id (str "GenuineIntel")
    then same s (str "CONFIG_MICROCODE_INTEL")
    else same snap.vendor_id (str "AuthenticAMD") && same s (str "CONFIG_MICROCODE_AMD")

-- The whole of the rule, as the module's documentation lists it.
abbrev pub is_protected : Snapshot → ResolutionResult → Str → Bool
is_protected snap res s =
    member s hard_blocklist
    || member s (get_list snap.arch arch_blocklist)
    || by_mounts s snap.mounts
    || by_boot s snap
    || by_links s res snap.network
    || by_cpu s snap
    || needs_btf snap && member s btf_load_bearing
    || member s res.required_configs
    || by_unresolved s res.unresolved_modules

ruleset member_laws = (member-add_all, member-add_if, or_assoc, or-false)

module _ (s : Str) where
  member-add_mounts :
      (ms : List Mount) (lb : LoadBearingSet)
      → member s (add_mounts ms lb).symbols ≡ (member s lb.symbols || by_mounts s ms)
  unfolding add_mounts
  member-add_mounts [] lb = sym (or-false _)
  member-add_mounts (m ∷ ms) lb = simp (member-add_mounts ms, member_laws)

  member-add_links :
      (res : ResolutionResult) (nets : List NetworkLink) (lb : LoadBearingSet)
      → member s (add_links res nets lb).symbols ≡ (member s lb.symbols || by_links s res nets)
  unfolding add_links
  member-add_links res [] lb = sym (or-false _)
  member-add_links res (n ∷ nets) lb = simp (member-add_links res nets, member_laws)

  member-add_unresolved :
      (mods : List Str) (lb : LoadBearingSet)
      → member s (add_unresolved mods lb).symbols ≡ (member s lb.symbols || by_unresolved s mods)
  unfolding add_unresolved
  member-add_unresolved [] lb = sym (or-false _)
  member-add_unresolved (m ∷ mods) lb = simp (member-add_unresolved mods, member_laws)

  member-add_boot :
      (snap : Snapshot) (lb : LoadBearingSet)
      → member s (add_luks snap (add_boot snap lb)).symbols
        ≡ (member s lb.symbols || by_boot s snap)
  unfolding add_luks add_boot
  member-add_boot snap lb = rw (member-add_if, member-add_if, or_assoc)

  member-add_btf :
      (snap : Snapshot) (lb : LoadBearingSet)
      → member s (add_btf snap lb).symbols
        ≡ (member s lb.symbols || needs_btf snap && member s btf_load_bearing)
  unfolding add_btf
  member-add_btf snap lb = rw member-add_if

  member-add_microcode :
      (snap : Snapshot) (lb : LoadBearingSet)
      → member s (add_microcode snap lb).symbols ≡ (member s lb.symbols || by_cpu s snap)
  unfolding add_microcode
  member-add_microcode snap lb = ground (
    arith,
    member-add s (str "CONFIG_MICROCODE_INTEL") (str "Intel CPU microcode") lb,
    member-add s (str "CONFIG_MICROCODE_AMD") (str "AMD CPU microcode") lb,
  )

pub compute_load_bearing_exact :
    (snap : Snapshot) (res : ResolutionResult) (s : Str)
    → member s (compute_load_bearing snap res).symbols ≡ is_protected snap res s
unfolding compute_load_bearing
compute_load_bearing_exact snap res s = simp (
  member-add_unresolved s,
  member-add_btf s,
  member-add_microcode s,
  member-add_links s,
  member-add_boot s,
  member-add_mounts s,
  member-add_all,
  or_assoc,
)
