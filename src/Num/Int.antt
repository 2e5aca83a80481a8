-- ===== src/Num/Int.antt =====
-- Signed integers over the native numbers, and the casts between `u128` and `i128`.
use wynddex.Base.{ℕ, suc, ◌+◌, ◌-◌, ◌*◌, ◌<◌, ◌≡◌, Bool, arith, ltb, leb, if◌then◌else◌, ap}

-- `negsuc n` is -(n + 1).
pub data ℤ : Type 0 where
  pos : ℕ → ℤ
  negsuc : ℕ → ℤ

abbrev pub pos_part : ℤ → ℕ
pos_part (pos n) = n
pos_part (negsuc n) = 0

abbrev pub neg_part : ℤ → ℕ
neg_part (pos n) = 0
neg_part (negsuc n) = suc n

-- a - b, as an integer.
abbrev pub sub_ℕ : ℕ → ℕ → ℤ
sub_ℕ a b = if leb b a then pos (a - b) else negsuc (b - a - 1)

infixl 65 ◌+ℤ◌ ◌-ℤ◌
infixl 70 ◌*ℤ◌
unfoldable pub ◌+ℤ◌ : ℤ → ℤ → ℤ
a +ℤ b = sub_ℕ (pos_part a + pos_part b) (neg_part a + neg_part b)

unfoldable pub ◌-ℤ◌ : ℤ → ℤ → ℤ
a -ℤ b = sub_ℕ (pos_part a + neg_part b) (neg_part a + pos_part b)

unfoldable pub ◌*ℤ◌ : ℤ → ℤ → ℤ
a *ℤ b =
    sub_ℕ (pos_part a * pos_part b + neg_part a * neg_part b)
      (pos_part a * neg_part b + neg_part a * pos_part b)

-- In range for `i128`.
abbrev pub fits_i128 : ℤ → Bool
fits_i128 (pos n) = ltb n 170141183460469231731687303715884105728
fits_i128 (negsuc n) = ltb n 170141183460469231731687303715884105728

-- `x as i128` and `x as u128`, which keep the bits.
unfoldable pub as_i128 : ℕ → ℤ
as_i128 n =
    if ltb n 170141183460469231731687303715884105728
    then pos n
    else negsuc (340282366920938463463374607431768211455 - n)

unfoldable pub as_u128 : ℤ → ℕ
as_u128 (pos n) = n
as_u128 (negsuc n) = 340282366920938463463374607431768211455 - n

pub +ℤ_parts :
    (a b : ℤ)
    → pos_part (a +ℤ b) + neg_part a + neg_part b ≡ neg_part (a +ℤ b) + pos_part a + pos_part b
unfolding ◌+ℤ◌
+ℤ_parts a b = ground arith

pub -ℤ_parts :
    (a b : ℤ)
    → pos_part (a -ℤ b) + neg_part a + pos_part b ≡ neg_part (a -ℤ b) + pos_part a + neg_part b
unfolding ◌-ℤ◌
-ℤ_parts a b = ground arith

-- The product by a number that is not negative.
pub *ℤ_parts :
    (n : ℕ) (b : ℤ)
    → pos_part (pos n *ℤ b) + n * neg_part b ≡ neg_part (pos n *ℤ b) + n * pos_part b
unfolding ◌*ℤ◌
*ℤ_parts n b = grind arith

pub eq_of_parts : (a b : ℤ) → pos_part a + neg_part b ≡ pos_part b + neg_part a → a ≡ b
eq_of_parts a b h = ground arith

pub as_i128-of_small : (n : ℕ) → n < 170141183460469231731687303715884105728 → as_i128 n ≡ pos n
unfolding as_i128
as_i128-of_small n h = ground arith

pub as_u128-as_i128 :
    (n : ℕ) → n < 340282366920938463463374607431768211456 → as_u128 (as_i128 n) ≡ n
unfolding as_u128 as_i128
as_u128-as_i128 n h = ground arith

-- Moving a multiple of the difference of two counts into a correction leaves the sum with the count.
pub rebalance :
    (p old new : ℕ) (c : ℤ)
    → pos (p * new) +ℤ (c -ℤ pos p *ℤ (pos new -ℤ pos old)) ≡ pos (p * old) +ℤ c
rebalance p old new c =
    let d = pos new -ℤ pos old in
    let c' = c -ℤ pos p *ℤ d in
    eq_of_parts _ _ (
      omega (
        arith,
        ap (λ (t : ℕ). p * t) (-ℤ_parts (pos new) (pos old)),
        *ℤ_parts p d,
        -ℤ_parts c (pos p *ℤ d),
        +ℤ_parts (pos (p * new)) c',
        +ℤ_parts (pos (p * old)) c,
      ))
