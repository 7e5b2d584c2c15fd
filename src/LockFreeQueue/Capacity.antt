-- ===== src/LockFreeQueue/Capacity.antt =====
-- include/ate/lockfree_queue.hpp: `round_up_pow2` and the mask made from it.
use native.Mathlib.Nat.{pow-suc, div-le_self, pow-le-pow_right}
use async_task_engine.Common.{
  ℕ, zero, suc, ◌+◌, ◌-◌, ◌/◌, ◌%◌, ◌^◌, ◌≤◌, ◌<◌, ◌≡◌, refl, arith, dec_le, dec_lt, max,
}
use async_task_engine.Common.Bits.{
  bit, bit-or, bit-lt, bit-shift, bit_or-lt, bit_top, all_ones, bit_and_mask, lt-two_pow,
}
use async_task_engine.LockFreeQueue.{word, smear, round_up_pow2, Shape, shape, index}

-- `x` has `l` bits, and the top `t` of them are set.
record IsTop (l t x : ℕ) : Type 0 where
  fits : x < 2 ^ l
  ones : (i : ℕ) → i < l → l ≤ i + t → bit i x ≡ 1

smear-IsTop : {l x : ℕ} (t : ℕ) → IsTop l t x → IsTop l (t + t) (smear t x)
smear-IsTop {l} {x} t h = record {
  fits = bit_or-lt l x (x / 2 ^ t) h.fits (omega (arith, div-le_self x (2 ^ t), h.fits));
  ones = ones;
}
  where
    shifted : (i : ℕ) → bit i (smear t x) ≡ max (bit i x) (bit (t + i) x)
    shifted i = rw (bit-or, bit-shift)

    ones : (i : ℕ) → i < l → l ≤ i + (t + t) → bit i (smear t x) ≡ 1
    ones i lt le = elim (dec_le l (i + t)) [
      | yes high ↦ omega (arith, shifted i, h.ones i lt high, bit-lt (t + i) x)
      | no low ↦ omega (arith, shifted i, h.ones (t + i) (omega arith) (omega arith), bit-lt i x)
    ]

-- The six shifts set every bit below the top one.
smear_all :
    (l x : ℕ)
    → l < 64
    → 2 ^ l ≤ x
    → x < 2 ^ suc l
    → smear 32 (smear 16 (smear 8 (smear 4 (smear 2 (smear 1 x))))) + 1 ≡ 2 ^ suc l
smear_all l x small lo hi = all_ones (suc l) _ top.fits (λ i lt. top.ones i lt (omega arith))
  where
    one : IsTop (suc l) 1 x
    one = record {
      fits = hi;
      ones = λ i lt le. let e : i ≡ l = omega arith in rw e (bit_top l x lo hi);
    }

    top : IsTop (suc l) 64 (smear 32 (smear 16 (smear 8 (smear 4 (smear 2 (smear 1 x))))))
    top =
        smear-IsTop 32
          (smear-IsTop 16 (smear-IsTop 8 (smear-IsTop 4 (smear-IsTop 2 (smear-IsTop 1 one)))))

-- Every number lies between two powers.
log_below : (b x : ℕ) → 0 < x → x < 2 ^ b → (l : ℕ) × (l < b) × (2 ^ l ≤ x) × (x < 2 ^ suc l)
log_below zero x p h = absurd (omega arith)
log_below (suc b) x p h = elim (dec_le (2 ^ b) x) [
  | yes le ↦ (b, omega arith, le, h)
  | no gt ↦ let (l, lt, lo, hi) = log_below b x p (omega arith) in (l, omega arith, lo, hi)
]

-- `round_up_pow2` of a number above 1 is the least power of 2 that is not below it, as a
-- `size_t`: for more than 2 ^ 63 that power is 2 ^ 64, and the result 0.
pub round_up_pow2_least :
    (n : ℕ)
    → 2 ≤ n
    → n < 2 ^ 64
    → (k : ℕ) × (k < 65) × (2 ^ k < n + n) × (n ≤ 2 ^ k) × (round_up_pow2 n ≡ word (2 ^ k))
unfolding round_up_pow2
round_up_pow2_least n lo hi =
    let (l, small, le, lt) = log_below 64 (n - 1) (omega arith) (omega arith) in
    (
      suc l,
      omega arith,
      omega (arith, pow-suc 2 l),
      omega arith,
      ground (arith, smear_all l (n - 1) small le lt),
    )

-- What the operations rely on.
pub record IsLayout (s : Shape) : Type 0 where
  pub at_least_two : 2 ≤ s.capacity
  pub power : (k : ℕ) × (s.capacity ≡ 2 ^ k)
  pub index_mod : (pos : ℕ) → index s pos ≡ pos % s.capacity

power-IsLayout :
    (k : ℕ)
    → 1 ≤ k
    → k < 64
    → IsLayout (record { capacity = 2 ^ k; mask = word (2 ^ k + (2 ^ 64 - 1)) })
unfolding index
power-IsLayout k lo hi = record {
  at_least_two = pow-le-pow_right {n = 2} (omega arith) {i = 1} {j = k} lo;
  power = (k, refl);
  index_mod = λ pos. rw mask_value (bit_and_mask k pos);
}
  where
    below : 2 ^ k ≤ 2 ^ 63
    below = pow-le-pow_right {n = 2} (omega arith) {i = k} {j = 63} (omega arith)

    mask_value : word (2 ^ k + (2 ^ 64 - 1)) ≡ 2 ^ k - 1
    mask_value = omega (arith, below, lt-two_pow k)

exponent_pos : (k : ℕ) → 2 ≤ 2 ^ k → 1 ≤ k
exponent_pos zero h = absurd (omega arith)
exponent_pos (suc k) h = omega arith

exponent_small : (k : ℕ) → 2 ^ k < 2 ^ 64 → k < 64
exponent_small k h = elim (dec_lt k 64) [
  | yes lt ↦ lt
  | no ge ↦
      let big : 2 ^ 64 ≤ 2 ^ k =
        pow-le-pow_right {n = 2} (omega arith) {i = 64} {j = k} (omega arith) in
      absurd (omega arith)
]

shape_of_power :
    (n k : ℕ)
    → 2 ≤ 2 ^ k
    → 2 ^ k < 2 ^ 64
    → n ≤ 2 ^ k
    → 2 ^ k ≤ max 2 (n + n)
    → round_up_pow2 n ≡ 2 ^ k
    → IsLayout (shape n) × (n ≤ (shape n).capacity) × ((shape n).capacity ≤ max 2 (n + n))
unfolding shape
shape_of_power n k two small above below e =
    rw e (power-IsLayout k (exponent_pos k two) (exponent_small k small), above, below)

-- A queue for up to 2 ^ 63 elements gets a power of 2 as its capacity, at least what was asked for
-- and at most 2 or the double of it, and the mask takes the remainder by the capacity.
pub shape-IsLayout :
    (n : ℕ)
    → n ≤ 2 ^ 63
    → IsLayout (shape n) × (n ≤ (shape n).capacity) × ((shape n).capacity ≤ max 2 (n + n))
unfolding round_up_pow2
shape-IsLayout n small = elim (dec_lt n 2) [
  | yes low ↦
      shape_of_power n 1 (omega arith) (omega arith) (omega arith) (omega arith) (at_two low)
  | no high ↦
      let (k, le, below, above, e) = round_up_pow2_least n (omega arith) (omega arith) in
      shape_of_power n k (omega arith) (omega arith) above (omega arith) (omega arith)
]
  where
    at_two : n < 2 → round_up_pow2 n ≡ 2 ^ 1
    at_two low = ground arith
