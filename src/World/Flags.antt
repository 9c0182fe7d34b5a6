-- ===== src/World/Flags.antt =====
-- `GlobalFlags` of src/autokernel/world/models.py, and the flags and the environment of a build in
-- src/autokernel/world/builder.py. The store of collected profiles is a function from a source to the
-- digest of its profile, `none` where there is no profile; without a directory there is no store.
pub mod Environment
pub mod Remedies
use autokernel.Base.{
  ℕ, Bool, true, false, not, ◌&&◌, ◌||◌, List, [], ◌∷◌, ◌++◌, Option, none, some, Str, str, ◌==◌,
  if◌then◌else◌, same, member, any, keep, map, join, dedupe, dedupe_from, sorted, starts_with,
}
use autokernel.Base.Space.{is_nil}
use autokernel.Base.Decimal.{decimal}
use autokernel.World.Models.{PackageOverride}
use autokernel.World.Triage.{words_from}

pub data Lto : Type 0 where
  no_lto auto thin full : Lto

pub data HardeningTier : Type 0 where
  distro_default fortify_plus paranoid : HardeningTier

pub record GlobalFlags : Type 0 where
  pub march : Str
  pub opt : Str
  pub lto : Lto
  pub compiler : Str
  pub linker : Str
  pub masquerade : Bool
  pub hardening : HardeningTier
  pub pgo : Str
  pub build_options : List Str
  pub build_profiles : List Str

-- `s.split()`
abbrev pub words : Str → List Str
words = words_from []

-- `" ".join(parts)`
abbrev pub spaced : List Str → Str
spaced = join (str " ")

abbrev pub is_clang : Str → Bool
is_clang compiler = same compiler (str "clang")

-- The flag for LTO of clang and of gcc.
abbrev pub lto_clang : Lto → List Str
lto_clang no_lto = []
lto_clang full = str "-flto" ∷ []
lto_clang auto = str "-flto=thin" ∷ []
lto_clang thin = str "-flto=thin" ∷ []

abbrev pub lto_gcc : Lto → List Str
lto_gcc no_lto = []
lto_gcc full = str "-flto" ∷ []
lto_gcc auto = str "-flto=auto" ∷ []
lto_gcc thin = str "-flto=auto" ∷ []

abbrev pub fortify : HardeningTier → List Str
fortify distro_default = []
fortify fortify_plus = str "-D_FORTIFY_SOURCE=3" ∷ []
fortify paranoid = str "-D_FORTIFY_SOURCE=3" ∷ []

unfoldable pub cflags_for : GlobalFlags → Str → Str
cflags_for f compiler = spaced (
    (str "-march=" ++ f.march)
      ∷ f.opt
      ∷ (if is_clang compiler then str "-gdwarf-4" ∷ lto_clang f.lto else lto_gcc f.lto)
    ++ fortify f.hardening)

unfoldable pub linker_for : GlobalFlags → Str → Str
linker_for f compiler =
    if is_nil f.linker then (if is_clang compiler then str "lld" else []) else f.linker

abbrev pub fuse : Str → List Str
fuse [] = []
fuse (c ∷ s) = (str "-fuse-ld=" ++ c ∷ s) ∷ []

unfoldable pub ldflags_for : GlobalFlags → Str → Str
unfolding linker_for
ldflags_for f compiler =
    spaced ((if is_clang compiler then lto_clang f.lto else []) ++ fuse (linker_for f compiler))

-- `(override.force_compiler if override else None) or flags.compiler`
abbrev pub or_default : Option Str → Str → Str
or_default (some (c ∷ s)) d = c ∷ s
or_default (some []) d = d
or_default none d = d

abbrev pub field {ℓ} : {A : Type ℓ} → (PackageOverride → A) → A → Option PackageOverride → A
field get missing none = missing
field get missing (some o) = get o

unfoldable pub effective_compiler : GlobalFlags → Option PackageOverride → Str
effective_compiler f o = or_default (field (λ p. p.force_compiler) none o) f.compiler

abbrev pub Profiles : Type 0
Profiles = Option (Str → Option Str)

-- The flags to compile and to link with, and the digest.
pub record Pgo : Type 0 where
  pub cflags : Str
  pub ldflags : Str
  pub digest : Str

abbrev pub no_pgo : Pgo
no_pgo = record { cflags = []; ldflags = []; digest = [] }

abbrev pub profile_path : Str → Str
profile_path source = str "/srv/world-profiles/" ++ (source ++ str ".profdata")

abbrev pub pgo_of : Str → Option Str → Pgo
pgo_of source none = no_pgo
pgo_of source (some digest) = record {
  cflags =
      str "-fprofile-use="
      ++ (profile_path source
          ++ str " -Wno-profile-instr-unprofiled -Wno-profile-instr-out-of-date");
  ldflags = str "-fprofile-use=" ++ profile_path source;
  digest = digest;
}

abbrev pub pgo_use : Str → Profiles → Pgo
pgo_use source none = no_pgo
pgo_use [] (some profile) = no_pgo
pgo_use (c ∷ source) (some profile) = pgo_of (c ∷ source) (profile (c ∷ source))

unfoldable pub pgo_extra : GlobalFlags → Str → Profiles → Pgo
pgo_extra f source profiles =
    if same f.pgo (str "instrument")
    then record {
      cflags = str "-fprofile-generate";
      ldflags = str "-fprofile-generate";
      digest = str "instrument";
    }
    else if same f.pgo (str "use")
    then pgo_use source profiles
    else no_pgo

abbrev pub without_all : List Str → List Str → List Str
without_all strip = keep (λ t. not (member t strip))

-- The words before those for profiles.
unfoldable pub compile_words : GlobalFlags → Option PackageOverride → List Str
unfolding cflags_for effective_compiler words_from
compile_words f none = words (cflags_for f (effective_compiler f none))
compile_words f (some o) =
    without_all o.strip_flags (words (cflags_for f (effective_compiler f (some o)))) ++ o.add_flags

abbrev pub pgo_words : GlobalFlags → Option PackageOverride → Str → List Str
pgo_words f o flags = if is_clang (effective_compiler f o) then words flags else []

unfoldable pub effective_cflags : GlobalFlags → Option PackageOverride → Str → Profiles → Str
unfolding compile_words pgo_extra
effective_cflags f o source profiles =
    spaced (compile_words f o ++ pgo_words f o (pgo_extra f source profiles).cflags)

unfoldable pub effective_build_options : GlobalFlags → Option PackageOverride → List Str
unfolding dedupe_from
effective_build_options f o =
    without_all (field (λ p. p.strip_build_options) [] o)
      (dedupe (f.build_options ++ field (λ p. p.build_options) [] o))

abbrev pub is_lto : Str → Bool
is_lto t = starts_with t (str "-flto")

-- Without LTO, the linker that is there only for it goes too.
abbrev pub strip_link : Bool → List Str → List Str → List Str
strip_link implicit_lld stripped tokens =
    if any is_lto stripped
    then keep (λ t. not (is_lto t) && not (implicit_lld && same t (str "-fuse-ld=lld"))) tokens
    else without_all stripped tokens

-- The words before those for profiles.
unfoldable pub link_words : GlobalFlags → Option PackageOverride → List Str
unfolding ldflags_for effective_compiler words_from
link_words f none = words (ldflags_for f (effective_compiler f none))
link_words f (some o) =
    strip_link (is_nil f.linker) o.strip_flags
      (words (ldflags_for f (effective_compiler f (some o))))

unfoldable pub effective_ldflags : GlobalFlags → Option PackageOverride → Str → Profiles → Str
unfolding link_words pgo_extra
effective_ldflags f o source profiles =
    spaced (link_words f o ++ pgo_words f o (pgo_extra f source profiles).ldflags)

unfoldable pub effective_profiles : GlobalFlags → Option PackageOverride → List Str
unfolding dedupe_from sorted
effective_profiles f o = sorted (
    without_all (field (λ p. p.strip_build_options) [] o)
      (dedupe (f.build_profiles ++ field (λ p. p.profiles) [] o)))
