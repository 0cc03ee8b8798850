-- ===== src/Strings/Decimal.antt =====
-- The verb `%d` of package fmt, for numbers of 32 bits.
use Prim.Native.Nat.pow
use Prim.Native.Nat.{◌/◌, ◌%◌, ◌^◌, ◌-◌}
use termcp_relay.Prelude.{
  ℕ, zero, suc, ◌+◌, ◌*◌, ◌<◌, ◌≡◌, refl, [], ◌∷◌, ◌++◌, if◌then◌else◌, ◌==◌, arith, Text, codes,
}

-- The last digits of a number, without leading zeros.
unfoldable pub digits : ℕ → ℕ → Text
digits zero n = []
digits (suc k) n =
    let rest = digits k (n / 10) in if n == 0 then [] else rest ++ ((b'0' + n % 10) ∷ [])

unfoldable pub decimal : ℕ → Text
unfolding digits
decimal n = if n == 0 then codes "0" else digits 10 n

-- The number that a text of digits stands for.
unfoldable pub value_from : ℕ → Text → ℕ
value_from n [] = n
value_from n (c ∷ s) = value_from (n * 10 + (c - b'0')) s

value_from-append :
    (c : ℕ) (s : Text) (n : ℕ) → value_from n (s ++ (c ∷ [])) ≡ value_from n s * 10 + (c - b'0')
unfolding value_from
value_from-append c [] n = refl
value_from-append c (d ∷ s) n = value_from-append c s _

tenth-lt : (k n : ℕ) → n < 10 ^ suc k → n / 10 < 10 ^ k
tenth-lt k n h = let unfolded = pow.suc 10 k in ground arith

value-digits : (k n : ℕ) → n < 10 ^ k → value_from 0 (digits k n) ≡ n
unfolding digits value_from
value-digits zero n h = ground arith
value-digits (suc k) n h =
    let last = value_from-append (b'0' + n % 10) (digits k (n / 10)) 0 in
    let before = value-digits k (n / 10) (tenth-lt k n h) in ground (arith, last, before)

-- Ten digits are enough for a number of 32 bits: what is printed stands for the number.
pub value-decimal : (n : ℕ) → n < 2 ^ 32 → value_from 0 (decimal n) ≡ n
unfolding decimal value_from
value-decimal n h = let fits : n < 10 ^ 10 = ground arith in ground (arith, value-digits 10 n fits)
