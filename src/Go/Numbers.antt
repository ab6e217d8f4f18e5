-- ===== src/Go/Numbers.antt =====
-- strconv.Atoi, the conversion of an int to an int32, and the text that fmt makes of a number.
use kube_state_metrics.Prelude.{
  false, ℕ, zero, suc, inl, inr, Bool-cases, ◌∙◌, sym, ◌+◌, ◌-◌, ◌*◌, ◌/◌, ◌%◌, ◌^◌, ◌<◌, ◌≡◌, ap,
  Bool, true, ◌&&◌, Option, none, some, [], ◌∷◌, arith, ltb, leb, nat_beq, All, length,
  if◌then◌else◌,
}
use kube_state_metrics.Prelude.Text.{Bytes}
use native.Mathlib.Nat.{pow-succ'}
use kube_state_metrics.Prelude.Int.{ℤ, pos, negsuc}

unfoldable pub is_digit : ℕ → Bool
is_digit c = leb b'0' c && leb c b'9'

-- The loop over the digits.
unfoldable pub digits : Bytes → ℕ → Option ℕ
unfolding is_digit
digits [] n = some n
digits (c ∷ s) n = let rest = digits s (n * 10 + (c - b'0')) in if is_digit c then rest else none

-- At least one digit is needed.
unsigned : Bytes → Option ℕ
unfolding digits
unsigned [] = none
unsigned (c ∷ s) = digits (c ∷ s) 0

-- An int has 64 bits.
positive : Option ℕ → Option ℤ
positive none = none
positive (some n) = if ltb n (2 ^ 63) then some (pos n) else none

negative : Option ℕ → Option ℤ
negative none = none
negative (some n) =
    if nat_beq n 0 then some (pos 0) else if leb n (2 ^ 63) then some (negsuc (n - 1)) else none

-- strconv.Atoi; none for its two errors.
unfoldable pub atoi : Bytes → Option ℤ
unfolding unsigned positive negative
atoi [] = none
atoi (c ∷ s) =
    if nat_beq c b'-'
    then negative (unsigned s)
    else if nat_beq c b'+'
    then positive (unsigned s)
    else positive (unsigned (c ∷ s))

-- The number that 32 bits stand for in two's complement.
from_bits : ℕ → ℤ
from_bits u = if ltb u (2 ^ 31) then pos u else negsuc (2 ^ 32 - 1 - u)

-- int32(n)
unfoldable pub int32 : ℤ → ℤ
unfolding from_bits
int32 (pos n) = from_bits (n % 2 ^ 32)
int32 (negsuc n) = from_bits (2 ^ 32 - 1 - n % 2 ^ 32)

-- The number that a text of digits writes, each digit by its place.
abbrev pub decimal : Bytes → ℕ
decimal [] = 0
decimal (c ∷ s) = (c - b'0') * 10 ^ length s + decimal s

place : (n d p v : ℕ) → (n * 10 + d) * p + v ≡ n * (10 * p) + (d * p + v)
place n d p v = omega arith

digits-decimal :
    (s : Bytes) (n : ℕ)
    → All (λ c. is_digit c ≡ true) s
    → digits s n ≡ some (n * 10 ^ length s + decimal s)
unfolding digits
digits-decimal [] n h = ap some (omega arith)
digits-decimal (c ∷ s) n (hc, h) =
    rw (hc, digits-decimal s (n * 10 + (c - b'0')) h)
      (ap some (rw pow-succ' (place n (c - b'0') (10 ^ length s) (decimal s))))

-- Atoi reads a text of digits below 2^63 as the number it writes.
pub atoi-decimal :
    (c : ℕ) (s : Bytes)
    → All (λ d. is_digit d ≡ true) (c ∷ s)
    → decimal (c ∷ s) < 2 ^ 63
    → atoi (c ∷ s) ≡ some (pos (decimal (c ∷ s)))
unfolding atoi unsigned positive is_digit
atoi-decimal c s h small = ground (arith, digits-decimal (c ∷ s) 0 h)

pub int32_small : (n : ℕ) → n < 2 ^ 31 → int32 (pos n) ≡ pos n
unfolding int32 from_bits
int32_small n h = ground arith

-- The digits of a number before those already written; the fuel bounds how many there are.
digits_before : ℕ → ℕ → Bytes → Bytes
digits_before zero n s = s
digits_before (suc fuel) n s =
    let rest = digits_before fuel (n / 10) ((b'0' + n % 10) ∷ s) in
    if ltb n 10 then (b'0' + n) ∷ s else rest

-- fmt's %d of a number. One more than the number is fuel enough, by digits_before_lem.
unfoldable pub format_int : ℕ → Bytes
unfolding digits_before
format_int n = digits_before (suc n) n []

carry : (n p v : ℕ) → n / 10 * (10 * p) + (n % 10 * p + v) ≡ n * p + v
carry n p v =
    let whole : n / 10 * 10 + n % 10 ≡ n = omega arith in
    sym (place (n / 10) (n % 10) p v) ∙ ap (λ m. m * p + v) whole

last_digit : (d p v : ℕ) → (b'0' + d - b'0') * p + v ≡ d * p + v
last_digit d p v = let value : b'0' + d - b'0' ≡ d = omega arith in ap (λ m. m * p + v) value

fewer : (n fuel : ℕ) → n < suc fuel → ltb n 10 ≡ false → n / 10 < fuel
fewer n fuel h large = ground arith

digits_before_lem :
    (fuel n : ℕ) (s : Bytes)
    → n < fuel
    → decimal (digits_before fuel n s) ≡ n * 10 ^ length s + decimal s
unfolding digits_before
digits_before_lem zero n s h = omega arith
digits_before_lem (suc fuel) n s h = elim (Bool-cases (ltb n 10)) [
  | inl small ↦ rw small (last_digit n (10 ^ length s) (decimal s))
  | inr large ↦ rw large (
      digits_before_lem fuel (n / 10) ((b'0' + n % 10) ∷ s) (fewer n fuel h large)
      ∙ rw pow-succ' (
          ap (λ m. n / 10 * (10 * 10 ^ length s) + m)
            (last_digit (n % 10) (10 ^ length s) (decimal s))
          ∙ carry n (10 ^ length s) (decimal s)))
]

-- The text of a number writes it.
format_int_lem : (n : ℕ) → decimal (format_int n) ≡ n
unfolding format_int
format_int_lem n = digits_before_lem (suc n) n [] (omega arith) ∙ (omega arith)
