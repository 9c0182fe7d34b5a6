-- ===== src/World/Builder/Tests.antt =====
-- Two packages of a world for clang, built twice, triaged and retried.
use autokernel.Base.{
  ℕ, true, false, not, ◌&&◌, [], ◌∷◌, none, some, Str, str, ◌≡◌, refl, inr, All, same, keep,
  if◌then◌else◌, starts_with, strip_prefix, join, dedupe_from, sorted, insert_sorted,
}
use autokernel.Base.Space.{is_space}
use autokernel.World.Models.{PackageOverride, opt_miscompile}
use autokernel.World.Triage.{words_from, bare_override}
use autokernel.World.Waves.{normal, contains_text}
use autokernel.World.Flags.{
  GlobalFlags, thin, distro_default, cflags_for, ldflags_for, linker_for, effective_compiler,
  compile_words, link_words, effective_cflags, effective_ldflags, effective_build_options,
  effective_profiles, pgo_extra, field, is_clang,
}
use autokernel.World.Flags.Environment.{
  flags_payload, build_environment, build_environment-flags_payload,
}
use autokernel.World.Builder.{SourceUnit, WorldDir, unit_dir, safe_version}
use autokernel.World.Builder.Build.{Attempt, Run}
use autokernel.World.Builder.Accepted.{passes}
use autokernel.World.Builder.Resume.{pending_units, build_world, chosen_units}
use autokernel.World.Builder.Resume.Again.{Names, has_dir, passed, to_build-build_world}
use autokernel.World.Builder.Retry.{Host, HostAnswer}

abbrev clang_flags : GlobalFlags
clang_flags = record {
  march = str "native";
  opt = str "-O3";
  lto = thin;
  compiler = str "clang";
  linker = str "bfd";
  masquerade = false;
  hardening = distro_default;
  pgo = str "off";
  build_options = str "nocheck" ∷ str "nodoc" ∷ [];
  build_profiles = str "nodoc" ∷ [];
}

abbrev no_lto_bash : PackageOverride
no_lto_bash = record (bare_override (str "bash") (str "log")) {
  strip_flags = str "-flto=thin" ∷ [];
  strip_build_options = str "nodoc" ∷ [];
}

bash_links : link_words clang_flags (some no_lto_bash) ≡ str "-fuse-ld=bfd" ∷ []
unfolding link_words ldflags_for linker_for effective_compiler words_from is_space same join
    starts_with strip_prefix
bash_links = refl

bash_compiles :
    compile_words clang_flags (some no_lto_bash)
    ≡ str "-march=native" ∷ str "-O3" ∷ str "-gdwarf-4" ∷ []
unfolding compile_words cflags_for effective_compiler words_from is_space same join
bash_compiles = refl

bash_options : effective_build_options clang_flags (some no_lto_bash) ≡ str "nocheck" ∷ []
unfolding effective_build_options dedupe_from same
bash_options = refl

-- A remedy that strips a flag that the world has not is the same as none.
abbrev no_effect : PackageOverride
no_effect = record (bare_override (str "bash") (str "log")) { strip_flags = str "-Os" ∷ [] }

no_effect_payload :
    flags_payload clang_flags none (str "bash") none
    ≡ flags_payload clang_flags (some no_effect) (str "bash") none
unfolding flags_payload effective_cflags effective_ldflags effective_build_options
    effective_profiles compile_words link_words cflags_for ldflags_for linker_for effective_compiler
    words_from is_space same join starts_with strip_prefix pgo_extra dedupe_from sorted
    insert_sorted
no_effect_payload = refl

build_environment-flags_payload_example :
    (build_environment clang_flags none 4 none (str "bash") none
      ≡ build_environment clang_flags (some no_effect) 4 none (str "bash") none)
    × (field (λ q. q.patches) [] none ≡ field (λ q. q.patches) [] (some no_effect))
    × ((clang_flags.masquerade && is_clang (effective_compiler clang_flags none))
        ≡ (clang_flags.masquerade && is_clang (effective_compiler clang_flags (some no_effect))))
build_environment-flags_payload_example =
    build_environment-flags_payload clang_flags clang_flags none (some no_effect) (str "bash") none
      none 4 none no_effect_payload (inr refl)

abbrev run : Run
run = record { flags = clang_flags; overrides = []; profiles = none; digest = λ p. p.cflags }

abbrev unit : Str → ℕ → SourceUnit
unit source wave = record {
  source = source;
  version = str "1:2.0";
  binaries = source ∷ [];
  build_deps_in_closure = [];
  wave = wave;
  cost = normal;
  use_stock = false;
  note = none;
}

abbrev bash : SourceUnit
bash = unit (str "bash") 1

abbrev sed : SourceUnit
sed = unit (str "sed") 0

abbrev log : Str
log = str "clang -march=native -O3 -gdwarf-4 -flto=thin -c a.c\nStatus: successful"

abbrev good : Attempt
good = record {
  fetch_exact = false;
  fetch_candidate = true;
  unpacked = true;
  patch_problem = none;
  dch = true;
  unpacked_again = true;
  dpkg_source = true;
  dsc = some (str "1:2.0+ak1");
  sbuild = true;
  build_log = some log;
  blhc_output = [];
  blhc_failed = false;
  compiles = record { clang = 3; gcc = 1; bypass = 0 };
  debs = str "sed_2.0+ak1_amd64.deb" ∷ [];
}

-- The log has no flag.
abbrev bare_log : Attempt
bare_log = record good { build_log = some (str "Status: successful") }

abbrev attempts : SourceUnit → Attempt
attempts u = if same u.source (str "sed") then good else bare_log

abbrev fresh : WorldDir
fresh = record { records = []; published = [] }

good-passes : passes clang_flags none good ≡ true
unfolding passes contains_text effective_cflags compile_words cflags_for effective_compiler
    words_from is_space same join pgo_extra starts_with strip_prefix
good-passes = refl

bare_log-passes : passes clang_flags none bare_log ≡ false
unfolding passes contains_text effective_cflags compile_words cflags_for effective_compiler
    words_from is_space same join pgo_extra starts_with strip_prefix
bare_log-passes = refl

two-Names : All (λ u. Names u (bash ∷ sed ∷ [])) (bash ∷ sed ∷ [])
unfolding unit_dir safe_version same
two-Names = (((λ h. refl), ((λ h. cc), tt)), (((λ h. cc), ((λ h. refl), tt)), tt))

to_build-build_world_example :
    (pending_units run
      (bash ∷ sed ∷ [])
      (build_world [] run attempts (bash ∷ sed ∷ []) [] 0 fresh).1).to_build
    ≡ keep
        (λ u. not (
          has_dir (unit_dir u) (chosen_units run (bash ∷ sed ∷ []) [] 0 fresh)
          && passed run attempts u))
        (pending_units run (bash ∷ sed ∷ []) fresh).to_build
to_build-build_world_example =
    to_build-build_world [] run attempts (bash ∷ sed ∷ []) [] 0 fresh two-Names

abbrev answer : HostAnswer
answer = record {
  log = some (str "error: LTO");
  draft = record {
    failure_class = opt_miscompile;
    remedy = record {
      action = str "strip-flags";
      strip_flags = str "-flto=thin" ∷ [];
      add_flags = [];
      strip_options = [];
      reason = str "LTO";
    };
    confidence = 0;
    evidence = [];
  };
  patch = none;
  attempt = good;
}

abbrev host : Host
host round source = answer
