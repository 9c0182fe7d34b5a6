-- ===== src/World/Builder/Retry/Confirmed.antt =====
-- Which remedies the rounds save.
use autokernel.Base.{true, List, Option, some, Str, ◌≡◌, ◌⊎◌}
use autokernel.World.Models.{PackageOverride}
use autokernel.World.Exceptions.{save_exception}
use autokernel.World.Builder.Build.{Attempt, Run}
use autokernel.World.Builder.Accepted.{passes}
use autokernel.World.Builder.Retry.{Triage, remedy_changes_something}

-- A remedy that leaves its package stock, or that changes something and was in front of a build of
-- its package that passed.
abbrev pub Justified : Run → PackageOverride → Type 0
Justified run m =
    (m.use_stock ≡ true)
    ⊎ ((a : Attempt) × (passes run.flags (some m) a ≡ true) × (remedy_changes_something m ≡ true))

-- A table that arises from the first by saving such remedies.
pub data Saved (run : Run) (start : List PackageOverride) : List PackageOverride → Type 0 where
  unchanged : Saved run start start
  saved :
      {table : List PackageOverride} (m : PackageOverride)
      → Saved run start table
      → Justified run m
      → Saved run start (save_exception table m)

-- A remedy, if there is one, is for this package.
abbrev Of : Str → Option PackageOverride → Type 0
Of source o = (m : PackageOverride) → o ≡ some m → m.source_pkg ≡ source

module _ (run : Run) (start : List PackageOverride) where
  abbrev Holds : Triage → Type 0
  Holds t = Saved run start t.exceptions
