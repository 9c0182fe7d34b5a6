-- ===== src/Patches/Version/Order.antt =====
-- The order of the versions of src/autokernel/patches.py.
use autokernel.Base.{ℕ, ◌<◌, true, false, Option, none, some, ◌≡◌, ◌⊎◌}
use autokernel.Patches.Version.{KernelVersion, version_lt}

-- A number of a candidate that is below the one that stands for a release.
abbrev pub IsCandidate : Option ℕ → Type 0
IsCandidate none = Unit
IsCandidate (some n) = n < 1000000

-- One of the two stands before the other, or they are the same.
abbrev pub Compares : KernelVersion → KernelVersion → Type 0
Compares a b =
    (a ≡ b)
    ⊎ (((version_lt a b ≡ true) × (version_lt b a ≡ false))
        ⊎ ((version_lt b a ≡ true) × (version_lt a b ≡ false)))
