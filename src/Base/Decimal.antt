-- ===== src/Base/Decimal.antt =====
-- Numbers in decimal.
use Prim.Native.Nat.{zero, suc}
use autokernel.Base.{
  ℕ, ◌+◌, ◌/◌, ◌%◌, ◌<◌, Str, [], ◌∷◌, ◌++◌, false, ltb, if◌then◌else◌, ◌≡◌, arith, All-append,
  Bool-cases, inl, inr,
}
use autokernel.Base.Space.{OneLine, is_break}

-- The digits of a number, on fuel; a number below 10 ^ fuel has no more digits than that.
unfoldable pub digits : ℕ → ℕ → Str
digits zero n = []
digits (suc fuel) n =
    let more = digits fuel (n / 10) in
    if ltb n 10 then (b'0' + n) ∷ [] else more ++ (b'0' + n % 10) ∷ []

-- `str(n)`: a number has at most n + 1 digits.
unfoldable pub decimal : ℕ → Str
unfolding digits
decimal n = digits (suc n) n

pub is_break-digit : (d : ℕ) → d < 10 → is_break (b'0' + d) ≡ false
unfolding is_break
is_break-digit d h = ground arith

digits-OneLine : (fuel n : ℕ) → OneLine (digits fuel n)
unfolding digits
digits-OneLine zero n = tt
digits-OneLine (suc fuel) n = elim (Bool-cases (ltb n 10)) [
  | inl lt ↦ rw lt (is_break-digit n (ground arith), tt)
  | inr ge ↦ rw ge (
      All-append _ (digits fuel (n / 10)) _ (digits-OneLine fuel (n / 10))
        (is_break-digit (n % 10) (omega arith), tt))
]

-- A number prints on one line.
pub decimal-OneLine : (n : ℕ) → OneLine (decimal n)
unfolding decimal
decimal-OneLine n = digits-OneLine (suc n) n
