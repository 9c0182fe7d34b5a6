-- ===== src/Patches/Version.antt =====
-- `KernelVersion` and `parse_version` of src/autokernel/patches.py. A digit is one of ASCII.
pub mod Order
pub mod RoundTrip
use autokernel.Base.{
  ℕ, ◌+◌, ◌-◌, ◌*◌, ◌==◌, Bool, true, false, not, ◌&&◌, ◌||◌, List, [], ◌∷◌, ◌++◌, Option, none,
  some, Str, str, ltb, leb, if◌then◌else◌, strip_prefix,
}
use autokernel.Base.Space.{is_nil, strip}
use autokernel.Base.Decimal.{decimal}

pub record KernelVersion : Type 0 where
  pub major : ℕ
  pub minor : ℕ
  pub sub : ℕ
  pub rc : Option ℕ

-- The last part of `_key`
abbrev pub rc_key : Option ℕ → ℕ
rc_key none = 1000000
rc_key (some n) = n

-- `self._key < other._key`, a comparison of tuples
unfoldable pub version_lt : KernelVersion → KernelVersion → Bool
version_lt a b =
    ltb a.major b.major
    || (a.major == b.major
        && (ltb a.minor b.minor
            || (a.minor == b.minor
                && (ltb a.sub b.sub || (a.sub == b.sub && ltb (rc_key a.rc) (rc_key b.rc))))))

abbrev pub sub_text : ℕ → Str
sub_text n = if n == 0 then [] else b'.' ∷ decimal n

abbrev pub rc_text : Option ℕ → Str
rc_text none = []
rc_text (some n) = str "-rc" ++ decimal n

-- `str(version)`
unfoldable pub version_text : KernelVersion → Str
version_text v = (decimal v.major ++ b'.' ∷ decimal v.minor) ++ (sub_text v.sub ++ rc_text v.rc)

abbrev pub is_digit : ℕ → Bool
is_digit c = leb b'0' c && leb c b'9'

-- `\d*`, read as a number behind what was read before, and the rest of the text
unfoldable pub read_digits : ℕ → Str → ℕ × Str
read_digits n [] = (n, [])
read_digits n (c ∷ s) =
    let more = read_digits (n * 10 + (c - b'0')) s in if is_digit c then more else (n, c ∷ s)

-- `(\d+)`
unfoldable pub read_number : Str → Option (ℕ × Str)
unfolding read_digits
read_number [] = none
read_number (c ∷ s) = if is_digit c then some (read_digits 0 (c ∷ s)) else none

abbrev pub number_after : Option Str → Option (ℕ × Str)
unfolding read_number
number_after none = none
number_after (some s) = read_number s

-- `(?:...(\d+))?` behind a fixed text: the number, if it is there, and the rest
abbrev pub or_none : Option (ℕ × Str) → Str → Option ℕ × Str
or_none none s = (none, s)
or_none (some (n, rest)) s = (some n, rest)

unfoldable pub read_optional : Str → Str → Option ℕ × Str
unfolding strip_prefix number_after
read_optional before s = or_none (number_after (strip_prefix before s)) s

abbrev pub or_zero : Option ℕ → ℕ
or_zero none = 0
or_zero (some n) = n

-- The groups behind the minor number, up to the end of the text.
unfoldable pub read_rest : ℕ → ℕ → Str → Option KernelVersion
unfolding read_optional
read_rest major minor s =
    let (sub, s1) = read_optional (str ".") s in
    let (rc, s2) = read_optional (str "-rc") s1 in
    if is_nil s2
    then some (record { major = major; minor = minor; sub = or_zero sub; rc = rc })
    else none

unfoldable pub read_minor : ℕ → Option (ℕ × Str) → Option KernelVersion
unfolding read_rest
read_minor major none = none
read_minor major (some (minor, s)) = read_rest major minor s

unfoldable pub read_major : Option (ℕ × Str) → Option KernelVersion
unfolding read_minor strip_prefix number_after
read_major none = none
read_major (some (major, s)) = read_minor major (number_after (strip_prefix (str ".") s))

-- `v?`
unfoldable pub without_v : Str → Str
without_v [] = []
without_v (c ∷ s) = if c == b'v' then s else c ∷ s

-- The version, or `PatchError`.
unfoldable pub parse_version : Str → Option KernelVersion
unfolding read_major read_number without_v
parse_version text = read_major (read_number (without_v (strip text)))

unfoldable pub at_least : Option KernelVersion → KernelVersion → Bool
unfolding version_lt
at_least none v = true
at_least (some low) v = not (version_lt v low)

unfoldable pub below : Option KernelVersion → KernelVersion → Bool
unfolding version_lt
below none v = true
below (some high) v = version_lt v high
