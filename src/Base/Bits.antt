-- ===== src/Base/Bits.antt =====
-- Laws of `bit_and` and `bit_or` at variables, from the recursion on binary digits.
use Prim.Native.Nat.{
  ℕ, zero, suc, ◌+◌, ◌-◌, ◌*◌, ◌/◌, ◌%◌, ◌^◌, ◌≤◌, ◌<◌, min, max, bit_and, bit_or, digits,
  bit_and-bitwise, bit_or-bitwise,
}
use mathlib.Core.Path.{◌≡◌, refl, ap, ◌∙◌}
use native.Mathlib.Nat.{pow-succ', mod-lt}
use native.Mathlib.Omega.{arith}

-- With as many rounds as the first number, one round more changes nothing.
one_round :
    (end : ℕ → ℕ) (op : ℕ → ℕ → ℕ) (rounds x y : ℕ)
    → x ≤ rounds
    → digits end op (suc rounds) x y ≡ digits end op rounds x y
one_round end op zero zero y enough = refl
one_round end op (suc rounds) zero y enough = refl
one_round end op zero (suc x) y enough = absurd (omega arith)
one_round end op (suc rounds) (suc x) y enough =
    omega (arith, one_round end op rounds (suc x / 2) (y / 2) (omega arith))

-- Nor do any number of rounds more.
digits_rounds :
    (end : ℕ → ℕ) (op : ℕ → ℕ → ℕ) (x y more rounds : ℕ)
    → rounds ≡ more + x
    → digits end op rounds x y ≡ digits end op x x y
digits_rounds end op x y zero rounds e = ap (λ (n : ℕ). digits end op n x y) (omega arith)
digits_rounds end op x y (suc more) zero e = absurd (omega arith)
digits_rounds end op x y (suc more) (suc rounds) e =
    one_round end op rounds x y (omega arith) ∙ digits_rounds end op x y more rounds (omega arith)

zero-bit_and : (y : ℕ) → bit_and 0 y ≡ 0
zero-bit_and y = bit_and-bitwise 0 y

zero-bit_or : (y : ℕ) → bit_or 0 y ≡ y
zero-bit_or y = bit_or-bitwise 0 y

-- The lowest digit of a conjunction, and of a disjunction, and the rest.
bit_and-digit : (x y : ℕ) → bit_and x y ≡ min (x % 2) (y % 2) + 2 * bit_and (x / 2) (y / 2)
bit_and-digit zero y = omega (arith, zero-bit_and (y / 2), zero-bit_and y)
bit_and-digit (suc x) y =
    let more : x ≡ (x - suc x / 2) + suc x / 2 = omega arith in
    omega (
      arith,
      digits_rounds (λ rest. zero) min (suc x / 2) (y / 2) (x - suc x / 2) x more,
      bit_and-bitwise (suc x / 2) (y / 2),
      bit_and-bitwise (suc x) y,
    )

bit_or-digit : (x y : ℕ) → bit_or x y ≡ max (x % 2) (y % 2) + 2 * bit_or (x / 2) (y / 2)
bit_or-digit zero y = omega (arith, zero-bit_or (y / 2), zero-bit_or y)
bit_or-digit (suc x) y =
    let more : x ≡ (x - suc x / 2) + suc x / 2 = omega arith in
    omega (
      arith,
      digits_rounds (λ rest. rest) max (suc x / 2) (y / 2) (x - suc x / 2) x more,
      bit_or-bitwise (suc x / 2) (y / 2),
      bit_or-bitwise (suc x) y,
    )

bit_and-zero_below : (bound x : ℕ) → x < bound → bit_and x 0 ≡ 0
bit_and-zero_below zero x h = absurd (omega arith)
bit_and-zero_below (suc bound) zero h = refl
bit_and-zero_below (suc bound) (suc x) h =
    omega (arith, bit_and-zero_below bound (suc x / 2) (omega arith), bit_and-digit (suc x) 0)

bit_and-zero : (x : ℕ) → bit_and x 0 ≡ 0
bit_and-zero x = bit_and-zero_below (suc x) x (omega arith)

pub bit_and-one : (a : ℕ) → bit_and a 1 ≡ a % 2
bit_and-one a = omega (arith, bit_and-digit a 1, bit_and-zero (a / 2))

pub bit_and-two : (a : ℕ) → bit_and a 2 ≡ a / 2 % 2 * 2
bit_and-two a = omega (arith, bit_and-digit a 2, bit_and-one (a / 2))

pub bit_and-three : (a : ℕ) → bit_and a 3 ≡ a % 4
bit_and-three a = omega (arith, bit_and-digit a 3, bit_and-one (a / 2))

mod_unique : (a d k r : ℕ) → a ≡ k * d + r → r < d → a % d ≡ r
mod_unique a d k r e h = grind (arith, mod-lt)

mod-double : (p a : ℕ) → 0 < p → a % (2 * p) ≡ a / 2 % p * 2 + a % 2
mod-double p a h =
    mod_unique a (2 * p) (a / 2 / p) (a / 2 % p * 2 + a % 2) (grind arith) (grind (arith, mod-lt))

pub two_pow_pos : (k : ℕ) → 0 < 2 ^ k
two_pow_pos zero = omega arith
two_pow_pos (suc k) = omega (arith, pow-succ' 2 k, two_pow_pos k)

double_mask :
    (p a : ℕ) → 0 < p → bit_and (a / 2) (p - 1) ≡ a / 2 % p → bit_and a (2 * p - 1) ≡ a % (2 * p)
double_mask p a h ih =
    let half : (2 * p - 1) / 2 ≡ p - 1 = omega arith in
    let odd : (2 * p - 1) % 2 ≡ 1 = omega arith in
    rw (bit_and-digit a (2 * p - 1), half, odd, ih, mod-double p a h) (omega arith)

-- A mask of `k` ones keeps the low `k` digits.
pub bit_and-mask : (k a : ℕ) → bit_and a (2 ^ k - 1) ≡ a % 2 ^ k
bit_and-mask zero a = omega (arith, bit_and-zero a)
bit_and-mask (suc k) a =
    rw (pow-succ' 2 k) (double_mask (2 ^ k) a (two_pow_pos k) (bit_and-mask k (a / 2)))

double_or :
    (p a m : ℕ) → bit_or (a / 2) (m * p) ≡ a / 2 + m * p → bit_or a (m * (2 * p)) ≡ a + m * (2 * p)
double_or p a m ih =
    let half : m * (2 * p) / 2 ≡ m * p = omega arith in
    let even : m * (2 * p) % 2 ≡ 0 = omega arith in
    rw (bit_or-digit a (m * (2 * p)), half, even, ih) (omega arith)

-- Setting digits above the number adds them.
pub bit_or-above : (k a m : ℕ) → a < 2 ^ k → bit_or a (m * 2 ^ k) ≡ a + m * 2 ^ k
bit_or-above zero zero m h = omega (arith, zero-bit_or (m * 2 ^ 0))
bit_or-above zero (suc a) m h = absurd (omega arith)
bit_or-above (suc k) a m h =
    rw (pow-succ' 2 k)
      (double_or (2 ^ k) a m (bit_or-above k (a / 2) m (omega (arith, pow-succ' 2 k))))
