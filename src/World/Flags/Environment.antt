-- ===== src/World/Flags/Environment.antt =====
-- `build_environment` and `flags_hash` of src/autokernel/world/builder.py. The hash is a function of
-- the payload that is given: the JSON text of the payload has its keys sorted.
use autokernel.Base.{
  ℕ, Bool, true, false, ◌&&◌, List, [], ◌∷◌, ◌++◌, Option, none, some, Str, str, ◌≡◌, refl, ap, sym,
  ◌∙◌, ◌⊎◌, inl, inr,
}
use autokernel.Base.Decimal.{decimal}
use autokernel.World.Models.{PackageOverride}
use autokernel.World.Flags.{
  GlobalFlags, Profiles, spaced, is_clang, field, effective_compiler, effective_cflags,
  effective_build_options, effective_ldflags, effective_profiles, pgo_extra,
}

-- `if value: env[key] = value`
abbrev pub entry : Str → Str → List (Str × Str)
entry key [] = []
entry key (c ∷ s) = (key, c ∷ s) ∷ []

abbrev pub cc_of : Bool → Bool → List (Str × Str)
cc_of true world =
    (str "CC", str "clang")
    ∷ (str "CXX", str "clang++")
    ∷ (str "DEB_BUILD_MAINT_OPTIONS", str "optimize=-lto")
    ∷ []
cc_of false true = (str "CC", str "gcc") ∷ (str "CXX", str "g++") ∷ []
cc_of false false = []

-- `if profiles:`
abbrev pub profiles_entry : List Str → List (Str × Str)
profiles_entry [] = []
profiles_entry (p ∷ ps) = (str "DEB_BUILD_PROFILES", spaced (p ∷ ps)) ∷ []

abbrev pub ccache_entry : Option Str → List (Str × Str)
ccache_entry none = []
ccache_entry (some dir) = entry (str "CCACHE_DIR") dir

-- What the number of jobs and the cache add does not depend on the flags.
unfoldable pub build_environment :
    GlobalFlags → Option PackageOverride → ℕ → Option Str → Str → Profiles → List (Str × Str)
unfolding effective_cflags effective_build_options effective_ldflags effective_profiles
    effective_compiler
build_environment f o jobs ccache_dir source profiles =
    let cflags = effective_cflags f o source profiles in
    (str "DEB_CFLAGS_APPEND", cflags)
      ∷ (str "DEB_CXXFLAGS_APPEND", cflags)
      ∷ (
        str "DEB_BUILD_OPTIONS",
        spaced (effective_build_options f o ++ (str "parallel=" ++ decimal jobs) ∷ []),
      )
      ∷ cc_of (is_clang (effective_compiler f o)) (is_clang f.compiler)
    ++ (entry (str "DEB_LDFLAGS_APPEND") (effective_ldflags f o source profiles)
        ++ (profiles_entry (effective_profiles f o) ++ ccache_entry ccache_dir))

-- The payload of the hash. An empty text stands for a key that is not there, and so does `false`.
pub record Payload : Type 0 where
  pub cflags : Str
  pub options : List Str
  pub profiles : List Str
  pub compiler : Str
  pub patches : List Str
  pub ldflags : Str
  pub masquerade : Bool
  pub pgo : Str

unfoldable pub flags_payload : GlobalFlags → Option PackageOverride → Str → Profiles → Payload
unfolding effective_cflags effective_build_options effective_ldflags effective_profiles
    effective_compiler pgo_extra
flags_payload f o source profiles = record {
  cflags = effective_cflags f o source profiles;
  options = effective_build_options f o;
  profiles = effective_profiles f o;
  compiler = effective_compiler f o;
  patches = field (λ p. p.patches) [] o;
  ldflags = effective_ldflags f o source profiles;
  masquerade = f.masquerade && is_clang (effective_compiler f o);
  pgo = (pgo_extra f source profiles).digest;
}

-- The environment, from the payload and from whether clang is the compiler of the world.
abbrev from_payload : Payload → Bool → ℕ → Option Str → List (Str × Str)
from_payload p world jobs ccache_dir =
    (str "DEB_CFLAGS_APPEND", p.cflags)
      ∷ (str "DEB_CXXFLAGS_APPEND", p.cflags)
      ∷ (str "DEB_BUILD_OPTIONS", spaced (p.options ++ (str "parallel=" ++ decimal jobs) ∷ []))
      ∷ cc_of (is_clang p.compiler) world
    ++ (entry (str "DEB_LDFLAGS_APPEND") p.ldflags
        ++ (profiles_entry p.profiles ++ ccache_entry ccache_dir))

from_payload-world :
    (p : Payload) (world other : Bool) (jobs : ℕ) (ccache_dir : Option Str)
    → (is_clang p.compiler ≡ true) ⊎ (world ≡ other)
    → from_payload p world jobs ccache_dir ≡ from_payload p other jobs ccache_dir
from_payload-world p world other jobs ccache_dir (inl e) = rw e refl
from_payload-world p world other jobs ccache_dir (inr e) = rw e refl

build_environment-from_payload :
    (f : GlobalFlags) (o : Option PackageOverride) (jobs : ℕ) (ccache_dir : Option Str)
    (source : Str) (profiles : Profiles)
    → build_environment f o jobs ccache_dir source profiles
      ≡ from_payload (flags_payload f o source profiles) (is_clang f.compiler) jobs ccache_dir
unfolding build_environment flags_payload
build_environment-from_payload f o jobs ccache_dir source profiles = refl

-- Two builds of one package whose flags have the same payload run in the same environment, with the
-- same patches and the same masquerade, where the package is built by clang or where both worlds
-- have clang for their compiler or neither has.
pub build_environment-flags_payload :
    (f g : GlobalFlags) (o p : Option PackageOverride) (source : Str) (old new : Profiles)
    (jobs : ℕ) (ccache_dir : Option Str)
    → flags_payload f o source old ≡ flags_payload g p source new
    → (is_clang (effective_compiler f o) ≡ true) ⊎ (is_clang f.compiler ≡ is_clang g.compiler)
    → (build_environment f o jobs ccache_dir source old
        ≡ build_environment g p jobs ccache_dir source new)
      × (field (λ q. q.patches) [] o ≡ field (λ q. q.patches) [] p)
      × ((f.masquerade && is_clang (effective_compiler f o))
          ≡ (g.masquerade && is_clang (effective_compiler g p)))
build_environment-flags_payload f g o p source old new jobs ccache_dir e c = (
  build_environment-from_payload f o jobs ccache_dir source old
      ∙ from_payload-world (flags_payload f o source old) (is_clang f.compiler)
          (is_clang g.compiler) jobs ccache_dir (unfold flags_payload in c)
      ∙ ap (λ q. from_payload q (is_clang g.compiler) jobs ccache_dir) e
      ∙ sym (build_environment-from_payload g p jobs ccache_dir source new),
  unfold flags_payload in ap (λ q. q.patches) e,
  unfold flags_payload in ap (λ q. q.masquerade) e,
)
