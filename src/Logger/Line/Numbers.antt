-- ===== src/Logger/Line/Numbers.antt =====
-- include/ate/logger.hpp: numbers in decimal, and reading them.
use async_task_engine.Common.{
  ℕ, zero, suc, ◌+◌, ◌-◌, ◌*◌, ◌/◌, ◌%◌, ◌<◌, ◌≡◌, ap, ◌∙◌, refl, Bool, ◌&&◌, [], ◌∷◌, ◌++◌, length,
  leb, ◌==◌, if◌then◌else◌, arith, append_assoc, inl, inr, Bool-cases,
}
use async_task_engine.Logger.Line.{Bytes, digits, zeros, padded}

abbrev pub is_digit : ℕ → Bool
is_digit c = leb b'0' c && leb c b'9'

-- Reads digits after a number read so far, up to the first other byte.
unfoldable pub read_number : ℕ → Bytes → ℕ × Bytes
read_number n [] = (n, [])
read_number n (c ∷ s) =
    let rest = read_number (n * 10 + (c - b'0')) s in if is_digit c then rest else (n, c ∷ s)

abbrev pub ten_to : ℕ → ℕ
ten_to zero = 1
ten_to (suc k) = 10 * ten_to k

read_number-digit :
    (n d : ℕ) (s : Bytes) → d < 10 → read_number n ((b'0' + d) ∷ s) ≡ read_number (n * 10 + d) s
unfolding read_number
read_number-digit n d s h = ground arith

pub read_number-digits :
    (places n : ℕ) (s : Bytes)
    → n < ten_to places
    → read_number 0 (digits places n ++ s) ≡ read_number n s
unfolding digits
read_number-digits zero n s h = ap (λ m. read_number m s) (omega arith)
read_number-digits (suc places) n s h = elim (Bool-cases (n / 10 == 0)) [
  | inl small ↦ rw small (ground (arith, read_number-digit 0 (n % 10) s (omega arith)))
  | inr large ↦ rw large (
      rw
        (
          append_assoc (digits places (n / 10)) ((b'0' + n % 10) ∷ []) s,
          read_number-digits places (n / 10) ((b'0' + n % 10) ∷ s) (omega (arith, h)),
          read_number-digit (n / 10) (n % 10) s (omega arith),
        )
        (ap (λ m. read_number m s) (omega arith)))
]

read_number-zeros : (k : ℕ) (s : Bytes) → read_number 0 (zeros k ++ s) ≡ read_number 0 s
unfolding zeros
read_number-zeros zero s = refl
read_number-zeros (suc k) s =
    read_number-digit 0 0 (zeros k ++ s) (omega arith) ∙ read_number-zeros k s

pub read_number-padded :
    (width n : ℕ) (s : Bytes)
    → n < ten_to 20
    → read_number 0 (padded width n ++ s) ≡ read_number n s
unfolding padded
read_number-padded width n s h =
    rw (append_assoc (zeros (width - length (digits 20 n))) (digits 20 n) s) (
      read_number-zeros (width - length (digits 20 n)) (digits 20 n ++ s)
      ∙ read_number-digits 20 n s h)
