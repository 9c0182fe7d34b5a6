-- ===== src/Patches/Version/RoundTrip.antt =====
-- The printed versions of src/autokernel/patches.py, read again.
use autokernel.Base.{
  ℕ, ◌+◌, ◌-◌, ◌*◌, ◌/◌, ◌%◌, ◌<◌, zero, suc, ◌==◌, Bool, true, false, [], ◌∷◌, ◌++◌, Option, none,
  some, Str, str, ltb, ◌≡◌, refl, ap, sym, ◌∙◌, arith, inl, inr, All, All-append, Bool-cases,
  strip_prefix, append_assoc, append-nil,
}
use autokernel.Base.Space.{is_space, strip, drop_left, drop_right}
use autokernel.Base.Decimal.{digits, decimal}
use autokernel.Patches.Version.{
  KernelVersion, is_digit, read_digits, read_number, read_optional, or_zero, read_rest, read_minor,
  read_major, without_v, parse_version, sub_text, rc_text, version_text,
}

is_digit-digit : (d : ℕ) → d < 10 → is_digit (b'0' + d) ≡ true
is_digit-digit d h = ground arith

read_digits-digit :
    (n d k : ℕ) (s : Str)
    → d < 10
    → n * 10 + d ≡ k
    → read_digits n ((b'0' + d) ∷ s) ≡ read_digits k s
unfolding read_digits
read_digits-digit n d k s h e =
    let value : n * 10 + (b'0' + d - b'0') ≡ k = omega arith in
    rw (is_digit-digit d h) (ap (λ m. read_digits m s) value)

read_digits-digits :
    (fuel k : ℕ) (s : Str) → k < fuel → read_digits 0 (digits fuel k ++ s) ≡ read_digits k s
unfolding read_digits digits
read_digits-digits zero k s h = ground arith
read_digits-digits (suc fuel) k s h = elim (Bool-cases (ltb k 10)) [
  | inl lt ↦ rw lt (read_digits-digit 0 k k s (ground arith) (omega arith))
  | inr ge ↦ rw ge (
      rw (append_assoc (digits fuel (k / 10)) ((b'0' + k % 10) ∷ []) s) (
        read_digits-digits fuel (k / 10) ((b'0' + k % 10) ∷ s) (ground arith)
        ∙ read_digits-digit (k / 10) (k % 10) k s (omega arith) (omega arith)))
]

-- The text does not begin with a digit.
abbrev Stops : Str → Type 0
Stops [] = Unit
Stops (c ∷ s) = is_digit c ≡ false

read_digits-Stops : (k : ℕ) (s : Str) → Stops s → read_digits k s ≡ (k, s)
unfolding read_digits
read_digits-Stops k [] h = refl
read_digits-Stops k (c ∷ s) h = rw h refl

abbrev has_digit : Str → Bool
has_digit [] = false
has_digit (c ∷ s) = is_digit c

has_digit-digits : (fuel k : ℕ) (s : Str) → k < fuel → has_digit (digits fuel k ++ s) ≡ true
unfolding digits
has_digit-digits zero k s h = ground arith
has_digit-digits (suc fuel) k s h = elim (Bool-cases (ltb k 10)) [
  | inl lt ↦ rw lt (is_digit-digit k (ground arith))
  | inr ge ↦ rw ge (
      rw (append_assoc (digits fuel (k / 10)) ((b'0' + k % 10) ∷ []) s)
        (has_digit-digits fuel (k / 10) ((b'0' + k % 10) ∷ s) (ground arith)))
]

read_number-has_digit : (s : Str) → has_digit s ≡ true → read_number s ≡ some (read_digits 0 s)
unfolding read_number
read_number-has_digit [] h = cc
read_number-has_digit (c ∷ s) h = rw h refl

read_number-decimal : (k : ℕ) (s : Str) → Stops s → read_number (decimal k ++ s) ≡ some (k, s)
unfolding decimal
read_number-decimal k s h =
    read_number-has_digit (decimal k ++ s) (has_digit-digits (suc k) k s (omega arith))
    ∙ ap some (read_digits-digits (suc k) k s (omega arith) ∙ read_digits-Stops k s h)

digits-no_space : (fuel k : ℕ) → All (λ c. is_space c ≡ false) (digits fuel k)
unfolding digits is_space
digits-no_space zero k = tt
digits-no_space (suc fuel) k = elim (Bool-cases (ltb k 10)) [
  | inl lt ↦ rw lt (ground arith, tt)
  | inr ge ↦
      rw ge
        (All-append _ (digits fuel (k / 10)) _ (digits-no_space fuel (k / 10)) (ground arith, tt))
]

decimal-no_space : (n : ℕ) → All (λ c. is_space c ≡ false) (decimal n)
unfolding decimal
decimal-no_space n = digits-no_space (suc n) n

drop_right-none : (p : ℕ → Bool) (s : Str) → All (λ c. p c ≡ false) s → drop_right p s ≡ s
unfolding drop_right
drop_right-none p [] h = refl
drop_right-none p (c ∷ s) h = rw (h.0, drop_right-none p s h.1) refl

strip-none : (s : Str) → All (λ c. is_space c ≡ false) s → strip s ≡ s
unfolding drop_left drop_right
strip-none [] h = refl
strip-none (c ∷ s) h = rw (drop_right-none is_space (c ∷ s) h) (rw h.0 refl)

sub_text-no_space : (n : ℕ) → All (λ c. is_space c ≡ false) (sub_text n)
unfolding is_space
sub_text-no_space n = elim (Bool-cases (n == 0)) [
  | inl nil ↦ rw nil tt
  | inr more ↦ rw more (refl, decimal-no_space n)
]

rc_text-no_space : (o : Option ℕ) → All (λ c. is_space c ≡ false) (rc_text o)
unfolding is_space
rc_text-no_space none = tt
rc_text-no_space (some n) = (refl, (refl, (refl, decimal-no_space n)))

version_text-no_space : (v : KernelVersion) → All (λ c. is_space c ≡ false) (version_text v)
unfolding version_text is_space
version_text-no_space v =
    All-append _ (decimal v.major ++ b'.' ∷ decimal v.minor) _
      (All-append _ (decimal v.major) _ (decimal-no_space v.major) (refl, decimal-no_space v.minor))
      (All-append _ (sub_text v.sub) _ (sub_text-no_space v.sub) (rc_text-no_space v.rc))

Stops-rc_text : (o : Option ℕ) → Stops (rc_text o)
Stops-rc_text none = tt
Stops-rc_text (some n) = refl

Stops-sub_text : (n : ℕ) (o : Option ℕ) → Stops (sub_text n ++ rc_text o)
Stops-sub_text n o = elim (Bool-cases (n == 0)) [
  | inl nil ↦ rw nil (Stops-rc_text o)
  | inr more ↦ rw more refl
]

read_number-all : (n : ℕ) → read_number (decimal n) ≡ some (n, [])
read_number-all n = ap read_number (sym (append-nil (decimal n))) ∙ read_number-decimal n [] tt

read_optional-rc : (o : Option ℕ) → read_optional (str "-rc") (rc_text o) ≡ (o, [])
unfolding read_optional strip_prefix
read_optional-rc none = refl
read_optional-rc (some n) = rw (read_number-all n) refl

read_optional-no_sub : (o : Option ℕ) → read_optional (str ".") (rc_text o) ≡ (none, rc_text o)
unfolding read_optional strip_prefix
read_optional-no_sub none = refl
read_optional-no_sub (some n) = refl

read_optional-sub :
    (n : ℕ) (o : Option ℕ)
    → (or_zero (read_optional (str ".") (sub_text n ++ rc_text o)).0 ≡ n)
      × ((read_optional (str ".") (sub_text n ++ rc_text o)).1 ≡ rc_text o)
unfolding read_optional strip_prefix
read_optional-sub n o = elim (Bool-cases (n == 0)) [
  | inl nil ↦ rw nil (
    ap (λ p. or_zero p.0) (read_optional-no_sub o) ∙ ground arith,
    ap (λ p. p.1) (read_optional-no_sub o),
  )
  | inr more ↦ rw (more, read_number-decimal n (rc_text o) (Stops-rc_text o)) (refl, refl)
]

without_v-has_digit : (s : Str) → has_digit s ≡ true → without_v s ≡ s
unfolding without_v
without_v-has_digit [] h = refl
without_v-has_digit (c ∷ s) h = ground arith

without_v-decimal : (k : ℕ) (s : Str) → without_v (decimal k ++ s) ≡ decimal k ++ s
unfolding decimal
without_v-decimal k s =
    without_v-has_digit (decimal k ++ s) (has_digit-digits (suc k) k s (omega arith))

read_rest-text :
    (major minor n : ℕ) (o : Option ℕ)
    → read_rest major minor (sub_text n ++ rc_text o)
      ≡ some (record { major = major; minor = minor; sub = n; rc = o })
unfolding read_rest
read_rest-text major minor n o =
    rw ((read_optional-sub n o).1, (read_optional-sub n o).0, read_optional-rc o) refl

-- Every version is read as itself from its text.
pub parse_version-version_text : (v : KernelVersion) → parse_version (version_text v) ≡ some v
unfolding parse_version version_text read_major read_minor strip_prefix
parse_version-version_text v =
    let rest = sub_text v.sub ++ rc_text v.rc in
    rw (strip-none (version_text v) (version_text-no_space v)) (
      ap (λ t. read_major (read_number (without_v t)))
        (append_assoc (decimal v.major) (b'.' ∷ decimal v.minor) rest)
      ∙ (ap (λ t. read_major (read_number t))
            (without_v-decimal v.major (b'.' ∷ (decimal v.minor ++ rest)))
          ∙ (ap read_major (read_number-decimal v.major (b'.' ∷ (decimal v.minor ++ rest)) refl)
              ∙ (ap (read_minor v.major)
                    (read_number-decimal v.minor rest (Stops-sub_text v.sub v.rc))
                  ∙ read_rest-text v.major v.minor v.sub v.rc))))
