-- ===== src/Prelude/Bits.antt =====
-- `|` of disjoint fields and `&` with a mask of low bits as arithmetic, at every width, and powers.
use Prim.Native.Nat.{
  ℕ, zero, suc, ◌+◌, ◌-◌, ◌*◌, ◌/◌, ◌%◌, ◌^◌, ◌≤◌, ◌<◌, min, max, bit_and, bit_or, digits, bitwise,
  bit_and-bitwise, bit_or-bitwise,
}
use mathlib.Core.Path.{◌≡◌, refl, ap, ◌∙◌}
use native.Mathlib.Nat.{pow-zero, pow-suc, one-le-pow, mul_assoc, add-zero}
use native.Mathlib.Omega.{arith}
use angr_ghidra_core.Prelude.Tests.{◌==◌, ==_iff, if◌then◌else◌}
use mathlib.Core.Bool.{Bool, true, false}

-- The recursion behind the native operations does not depend on its fuel, once there is enough.
module _ (end : ℕ → ℕ) (join : ℕ → ℕ → ℕ) where
  more_fuel :
      (extra fuel a b : ℕ)
      → a ≤ fuel
      → digits end join (fuel + extra) a b ≡ digits end join fuel a b
  more_fuel zero fuel a b h = ap (λ (k : ℕ). digits end join k a b) {x = fuel + 0} (omega arith)
  more_fuel (suc extra) zero zero b h =
      ap (λ (k : ℕ). digits end join k 0 b) {x = 0 + suc extra} {y = suc extra} (omega arith)
  more_fuel (suc extra) zero (suc a) b h = absurd (omega arith)
  more_fuel (suc extra) (suc fuel) zero b h =
      ap (λ (k : ℕ). digits end join k 0 b) {x = suc fuel + suc extra} {y = suc (fuel + suc extra)}
        (omega arith)
  more_fuel (suc extra) (suc fuel) (suc a) b h =
      ap (λ (k : ℕ). digits end join k (suc a) b) {x = suc fuel + suc extra}
        {y = suc (fuel + suc extra)} (omega arith)
      ∙ ap (λ (t : ℕ). t * 2 + join (suc a % 2) (b % 2))
          (more_fuel (suc extra) fuel (suc a / 2) (b / 2) (omega arith))

  low_digit :
      (a b : ℕ)
      → bitwise end join (suc a) b
        ≡ bitwise end join (suc a / 2) (b / 2) * 2 + join (suc a % 2) (b % 2)
  low_digit a b =
      let half = suc a / 2 in
      let spare : a ≡ half + (a - half) = omega arith in
      ap (λ (t : ℕ). t * 2 + join (suc a % 2) (b % 2))
        (ap (λ (k : ℕ). digits end join k half (b / 2)) spare
          ∙ more_fuel (a - half) half half (b / 2) (omega arith))

or_low : (a b : ℕ) → bit_or a b ≡ bit_or (a / 2) (b / 2) * 2 + max (a % 2) (b % 2)
or_low zero b = simp bit_or-bitwise (omega arith)
or_low (suc a) b = simp bit_or-bitwise (low_digit (λ y. y) max a b)

and_low : (a b : ℕ) → bit_and a b ≡ bit_and (a / 2) (b / 2) * 2 + min (a % 2) (b % 2)
and_low zero b = simp bit_and-bitwise (omega arith)
and_low (suc a) b = simp bit_and-bitwise (low_digit (λ y. 0) min a b)

or_none : (n a : ℕ) → a ≤ n → bit_or a 0 ≡ a
or_none n zero h = refl
or_none zero (suc a) h = absurd (omega arith)
or_none (suc n) (suc a) h = omega (arith, or_low (suc a) 0, or_none n (suc a / 2) (omega arith))

and_none : (n a : ℕ) → a ≤ n → bit_and a 0 ≡ 0
and_none n zero h = refl
and_none zero (suc a) h = absurd (omega arith)
and_none (suc n) (suc a) h = omega (arith, and_low (suc a) 0, and_none n (suc a / 2) (omega arith))

pub bit_or_comm : (n a b : ℕ) → a ≤ n → b ≤ n → bit_or a b ≡ bit_or b a
bit_or_comm zero zero zero ha hb = refl
bit_or_comm zero zero (suc b) ha hb = absurd (omega arith)
bit_or_comm zero (suc a) b ha hb = absurd (omega arith)
bit_or_comm (suc n) a b ha hb =
    ground
      (arith, or_low a b, or_low b a, bit_or_comm n (a / 2) (b / 2) (omega arith) (omega arith))

double_shift : (q k : ℕ) → q * 2 ^ suc k ≡ 2 * (q * 2 ^ k)
double_shift q k = omega (arith, ap (λ (t : ℕ). q * t) (pow-suc 2 k))

-- A field of `k` low bits beside a shifted number.
pub bit_or_fields : (k q r : ℕ) → r < 2 ^ k → bit_or (q * 2 ^ k) r ≡ q * 2 ^ k + r
bit_or_fields zero q r h = ground (arith, or_none q q)
bit_or_fields (suc k) q r h =
    ground
      (arith, or_low (q * 2 ^ suc k) r, double_shift q k, pow-suc 2 k, bit_or_fields k q (r / 2))

and_fields : (k q r : ℕ) → r < 2 ^ k → bit_and (q * 2 ^ k + r) (2 ^ k - 1) ≡ r
and_fields zero q r h = ground (arith, and_none (q * 1 + r) (q * 1 + r))
and_fields (suc k) q r h = ground (
  arith,
  and_low (q * 2 ^ suc k + r) (2 ^ suc k - 1),
  double_shift q k,
  pow-suc 2 k,
  one-le-pow k 2,
  and_fields k q (r / 2),
)

-- A mask of `k` ones is the remainder by `2 ^ k`.
pub bit_and_mask : (k a : ℕ) → bit_and a (2 ^ k - 1) ≡ a % 2 ^ k
bit_and_mask k a = ground (arith, one-le-pow k 2, and_fields k (a / 2 ^ k) (a % 2 ^ k))

pub pow-add : (b m n : ℕ) → b ^ (m + n) ≡ b ^ m * b ^ n
pow-add b m zero = rw (add-zero m, pow-zero b) (omega arith)
pow-add b m (suc n) =
    let step : b ^ suc (m + n) ≡ b ^ m * b ^ n * b =
      pow-suc b (m + n) ∙ ap (λ (t : ℕ). t * b) (pow-add b m n) in
    let shift : m + suc n ≡ suc (m + n) = omega arith in
    rw (shift, pow-suc b n) (step ∙ mul_assoc (b ^ m) (b ^ n) b)

-- Equations between functions on small numbers, by evaluation at each of them.
unfoldable pub same_below : (ℕ → ℕ) → (ℕ → ℕ) → ℕ → Bool
same_below f g zero = true
same_below f g (suc n) = if f n == g n then same_below f g n else false

pub agree_below : (f g : ℕ → ℕ) (n : ℕ) → same_below f g n ≡ true → (x : ℕ) → x < n → f x ≡ g x
unfolding same_below
agree_below f g zero table x lt = absurd (omega arith)
agree_below f g (suc n) table x lt =
    ground (arith, ==_iff (f n) (g n), agree_below f g n (ground arith) x)
