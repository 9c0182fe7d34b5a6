-- ===== src/Policy/LoadBearing.antt =====
-- `LoadBearingSet` and `compute_load_bearing` of src/autokernel/policy.py.
pub mod Exact
pub mod Reasons
use autokernel.Base.{
  List, [], ◌∷◌, ◌++◌, Str, str, Option, none, some, Bool, true, false, ◌&&◌, ◌||◌, same, member,
  lookup, any, if◌then◌else◌,
}
use autokernel.Models.{Mount, NetworkLink, SoftwareFeature, Snapshot}
use autokernel.Resolve.{ResolutionResult, fs_to_config}
use autokernel.KconfigMap.{candidate_configs}
use autokernel.Policy.Blocklists.{hard_blocklist, arch_blocklist, btf_load_bearing}

pub record LoadBearingSet : Type 0 where
  pub symbols : List Str
  pub reasons : List (Str × Str)

abbrev pub empty : LoadBearingSet
empty = record { symbols = []; reasons = [] }

-- A key that is not there yet: the new entry stands first.
unfoldable pub add : LoadBearingSet → Str → Str → LoadBearingSet
add lb sym reason =
    if member sym lb.symbols
    then lb
    else record { symbols = sym ∷ lb.symbols; reasons = (sym, reason) ∷ lb.reasons }

unfoldable pub contains : LoadBearingSet → Str → Bool × Option Str
contains lb sym = (member sym lb.symbols, lookup sym lb.reasons)

-- `for sym in syms: lb.add(sym, reason)`
unfoldable pub add_all : Str → List Str → LoadBearingSet → LoadBearingSet
unfolding add
add_all reason [] lb = lb
add_all reason (sym ∷ syms) lb = add_all reason syms (add lb sym reason)

-- `d.get(k, [])`
abbrev pub get_list : Str → List (Str × List Str) → List Str
get_list k m = elim (lookup k m) [ none ↦ [] | some v ↦ v ]

unfoldable pub is_boot_target : Str → Bool
is_boot_target t = same t (str "/") || same t (str "/boot") || same t (str "/usr")

unfoldable pub add_mounts : List Mount → LoadBearingSet → LoadBearingSet
unfolding add_all
add_mounts [] lb = lb
add_mounts (m ∷ ms) lb = add_mounts ms (
    if is_boot_target m.target
    then add_all (m.target ++ (str " is " ++ m.fstype)) (get_list m.fstype fs_to_config) lb
    else lb)

unfoldable pub add_boot : Snapshot → LoadBearingSet → LoadBearingSet
unfolding add_all
add_boot snap lb =
    if snap.efi
    then add_all (str "EFI boot") (str "CONFIG_EFI" ∷ str "CONFIG_EFI_STUB" ∷ []) lb
    else lb

unfoldable pub add_luks : Snapshot → LoadBearingSet → LoadBearingSet
unfolding add_all
add_luks snap lb =
    if snap.luks_in_chain
    then add_all (str "LUKS in boot chain")
        (str "CONFIG_DM_CRYPT" ∷ str "CONFIG_CRYPTO_AES" ∷ str "CONFIG_CRYPTO_XTS" ∷ []) lb
    else lb

-- `resolution.module_to_config.get(driver)`: a missing module and an unresolved one both give None.
abbrev pub config_of_driver : Option (Option Str) → List Str
config_of_driver (some (some cfg)) = cfg ∷ []
config_of_driver _ = []

-- The symbol that an active link protects; an absent and an empty driver name are both false.
unfoldable pub link_configs : ResolutionResult → NetworkLink → Option Str → List Str
link_configs res net none = []
link_configs res net (some []) = []
link_configs res net (some driver) =
    if net.is_active then config_of_driver (lookup driver res.module_to_config) else []

unfoldable pub add_links : ResolutionResult → List NetworkLink → LoadBearingSet → LoadBearingSet
unfolding add_all link_configs
add_links res [] lb = lb
add_links res (net ∷ nets) lb =
    add_links res nets
      (add_all (str "active network interface " ++ net.name) (link_configs res net net.driver) lb)

unfoldable pub add_microcode : Snapshot → LoadBearingSet → LoadBearingSet
unfolding add
add_microcode snap lb =
    if same snap.vendor_id (str "GenuineIntel")
    then add lb (str "CONFIG_MICROCODE_INTEL") (str "Intel CPU microcode")
    else if same snap.vendor_id (str "AuthenticAMD")
    then add lb (str "CONFIG_MICROCODE_AMD") (str "AMD CPU microcode")
    else lb

abbrev is_yes : Option Str → Bool
is_yes none = false
is_yes (some v) = same v (str "y")

-- BPF tools are installed, and the running kernel provides BTF.
unfoldable pub needs_btf : Snapshot → Bool
needs_btf snap =
    any (λ f. same f.feature (str "bpf")) snap.software_features
    && is_yes (lookup (str "CONFIG_DEBUG_INFO_BTF") snap.running_config)

unfoldable pub add_btf : Snapshot → LoadBearingSet → LoadBearingSet
unfolding add_all needs_btf
add_btf snap lb =
    if needs_btf snap
    then add_all (str "BPF tooling installed; needs BTF") btf_load_bearing lb
    else lb

unfoldable pub add_unresolved : List Str → LoadBearingSet → LoadBearingSet
unfolding add_all candidate_configs
add_unresolved [] lb = lb
add_unresolved (mod_name ∷ mods) lb = add_unresolved mods (
    add_all (str "unresolved module " ++ (mod_name ++ str " (mapping uncertain — protected)"))
      (candidate_configs mod_name none) lb)

unfoldable pub compute_load_bearing : Snapshot → ResolutionResult → LoadBearingSet
compute_load_bearing snap res =
    let hard = add_all (str "core infrastructure") hard_blocklist empty in
    let arch =
      add_all (str "architecture: " ++ snap.arch) (get_list snap.arch arch_blocklist) hard in
    let mounts = add_mounts snap.mounts arch in
    let boot = add_luks snap (add_boot snap mounts) in
    let links = add_links res snap.network boot in
    let cpu = add_btf snap (add_microcode snap links) in
    let required = add_all (str "deterministically required") res.required_configs cpu in
    add_unresolved res.unresolved_modules required
