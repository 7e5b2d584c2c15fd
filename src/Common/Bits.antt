-- ===== src/Common/Bits.antt =====
-- The bits of a native number: what `|`, `&` and `>>` do to them at variables.
use Prim.Native.Nat.{bit_and, bit_or, digits, bit_and-bitwise, bit_or-bitwise}
use Prim.Native.Nat.add
use native.Mathlib.Nat.{
  pow-suc, one-le-pow, mod-lt, mod-eq_of_lt, div-add-mod, mul-add-mod_self_left, div-div-eq-div-mul,
}
use Prim.Native.Nat.{ℕ, zero, suc, ◌+◌, ◌-◌, ◌*◌, ◌/◌, ◌%◌, ◌^◌, ◌≤◌, ◌<◌, min, max}
use mathlib.Core.Path.{◌≡◌, refl, sym, ap, ap₂, ◌∙◌}
use native.Mathlib.Omega.{arith}

-- An operation that works on the binary digits of its left operand: `rest` is what it does once
-- that is used up, `op` what it does to two digits. Fuel beyond the operand changes nothing.
module _ (rest : ℕ → ℕ) (op : ℕ → ℕ → ℕ) where
  used_up : (fuel b : ℕ) → digits rest op fuel 0 b ≡ rest b
  used_up zero b = refl
  used_up (suc fuel) b = refl

  enough : (f g : ℕ) {x : ℕ} (y : ℕ) → x ≤ f → x ≤ g → digits rest op f x y ≡ digits rest op g x y
  enough f g {x = zero} y _ _ = used_up f y ∙ sym (used_up g y)
  enough zero g {x = suc x} y below _ = elim below [ ]
  enough (suc f) zero {x = suc x} y _ below = elim below [ ]
  enough (suc f) (suc g) {x = suc x} y hf hg =
      ap (λ (t : ℕ). t * 2 + op (suc x % 2) (y % 2))
        (enough f g {x = suc x / 2} (y / 2) (omega arith) (omega arith))

pub zero-bit_or : (b : ℕ) → bit_or 0 b ≡ b
zero-bit_or = bit_or-bitwise 0

zero-bit_and : (b : ℕ) → bit_and 0 b ≡ 0
zero-bit_and = bit_and-bitwise 0

-- Both operations, one digit at a time.
pub halve-bit_or : (x y : ℕ) → bit_or x y ≡ 2 * bit_or (x / 2) (y / 2) + max (x % 2) (y % 2)
halve-bit_or zero y = omega (arith, zero-bit_or y, zero-bit_or (y / 2))
halve-bit_or (suc x) y =
    let whole = bit_or-bitwise (suc x) y in
    let half = bit_or-bitwise (suc x / 2) (y / 2) in
    let less =
      enough (λ c. c) max x (suc x / 2) {x = suc x / 2} (y / 2) (omega arith) (omega arith) in
    omega arith

halve-bit_and : (x y : ℕ) → bit_and x y ≡ 2 * bit_and (x / 2) (y / 2) + min (x % 2) (y % 2)
halve-bit_and zero y = omega (arith, zero-bit_and y, zero-bit_and (y / 2))
halve-bit_and (suc x) y =
    let whole = bit_and-bitwise (suc x) y in
    let half = bit_and-bitwise (suc x / 2) (y / 2) in
    let less =
      enough (λ c. 0) min x (suc x / 2) {x = suc x / 2} (y / 2) (omega arith) (omega arith) in
    omega arith

-- The bit of weight 2 ^ i.
pub bit : ℕ → ℕ → ℕ
bit zero x = x % 2
bit (suc i) x = bit i (x / 2)

pub bit-or : (i a b : ℕ) → bit i (bit_or a b) ≡ max (bit i a) (bit i b)
unfolding bit
bit-or zero a b = omega (arith, halve-bit_or a b)
bit-or (suc i) a b =
    let e : bit_or a b / 2 ≡ bit_or (a / 2) (b / 2) = omega (arith, halve-bit_or a b) in
    rw e (bit-or i (a / 2) (b / 2))

pub bit-lt : (i x : ℕ) → bit i x < 2
unfolding bit
bit-lt zero x = omega arith
bit-lt (suc i) x = bit-lt i (x / 2)

pub bit-shift : (t i x : ℕ) → bit i (x / 2 ^ t) ≡ bit (t + i) x
unfolding bit
bit-shift zero i x =
    let low : i ≡ 0 + i = omega arith in let same : x / 2 ^ 0 ≡ x = omega arith in ap₂ bit low same
bit-shift (suc t) i x =
    ap (bit i)
      (ap (λ (d : ℕ). x / d) (omega (arith, pow-suc 2 t)) ∙ sym (div-div-eq-div-mul x 2 (2 ^ t)))
    ∙ bit-shift t i (x / 2)
    ∙ ap (λ j. bit j x) (sym (add.suc t i))

pub bit_or-lt : (l a b : ℕ) → a < 2 ^ l → b < 2 ^ l → bit_or a b < 2 ^ l
bit_or-lt zero a b p q = let e : a ≡ 0 = omega arith in rw (e, zero-bit_or) q
bit_or-lt (suc l) a b p q = omega (
  arith,
  halve-bit_or a b,
  pow-suc 2 l,
  bit_or-lt l (a / 2) (b / 2) (omega (arith, pow-suc 2 l)) (omega (arith, pow-suc 2 l)),
)

pub bit_top : (l x : ℕ) → 2 ^ l ≤ x → x < 2 ^ suc l → bit l x ≡ 1
unfolding bit
bit_top zero x p q = omega arith
bit_top (suc l) x p q =
    bit_top l (x / 2) (omega (arith, pow-suc 2 l)) (omega (arith, pow-suc 2 l, pow-suc 2 (suc l)))

-- A number below 2 ^ l whose bits below l are all set.
pub all_ones : (l x : ℕ) → x < 2 ^ l → ((i : ℕ) → i < l → bit i x ≡ 1) → x + 1 ≡ 2 ^ l
unfolding bit
all_ones zero x p h = omega arith
all_ones (suc l) x p h = omega (
  arith,
  pow-suc 2 l,
  h 0 (omega arith),
  all_ones l (x / 2) (omega (arith, pow-suc 2 l)) (λ i q. h (suc i) (omega arith)),
)

bit_and-zero_below : (l a : ℕ) → a < 2 ^ l → bit_and a 0 ≡ 0
bit_and-zero_below zero a h = let e : a ≡ 0 = omega arith in rw e
bit_and-zero_below (suc l) a h =
    omega (arith, halve-bit_and a 0, bit_and-zero_below l (a / 2) (omega (arith, pow-suc 2 l)))

pub lt-two_pow : (n : ℕ) → n < 2 ^ n
lt-two_pow zero = omega arith
lt-two_pow (suc n) = omega (arith, pow-suc 2 n, lt-two_pow n)

mod_double : (a m : ℕ) → 0 < m → a % (2 * m) ≡ a / 2 % m * 2 + a % 2
mod_double a m h =
    let q = a / 2 / m in
    let r = a / 2 % m * 2 + a % 2 in
    let whole : a ≡ 2 * m * q + r = omega (arith, div-add-mod (a / 2) m) in
    let small : r < 2 * m = omega (arith, mod-lt (a / 2) h) in
    ap (λ (t : ℕ). t % (2 * m)) whole ∙ mul-add-mod_self_left (2 * m) q r ∙ mod-eq_of_lt small

-- `& (2 ^ k - 1)` is the remainder by 2 ^ k.
pub bit_and_mask : (k a : ℕ) → bit_and a (2 ^ k - 1) ≡ a % 2 ^ k
bit_and_mask zero a = omega (arith, bit_and-zero_below a a (lt-two_pow a))
bit_and_mask (suc k) a =
    let pos = one-le-pow k 2 (omega arith) in
    let halved : (2 ^ suc k - 1) / 2 ≡ 2 ^ k - 1 = omega (arith, pow-suc 2 k) in
    let twice : 2 ^ suc k ≡ 2 * 2 ^ k = omega (arith, pow-suc 2 k) in
    let step : bit_and (a / 2) ((2 ^ suc k - 1) / 2) ≡ a / 2 % 2 ^ k =
      rw halved (bit_and_mask k (a / 2)) in
    let split : a % 2 ^ suc k ≡ a / 2 % 2 ^ k * 2 + a % 2 = rw twice (mod_double a (2 ^ k) pos) in
    omega (arith, halve-bit_and a (2 ^ suc k - 1))
