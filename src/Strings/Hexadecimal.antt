-- ===== src/Strings/Hexadecimal.antt =====
-- The verb `%X` of package fmt, for numbers of 32 bits.
use Prim.Native.Nat.pow
use Prim.Native.Nat.{◌/◌, ◌%◌, ◌^◌, ◌-◌}
use termcp_relay.Prelude.{
  ℕ, zero, suc, ◌+◌, ◌*◌, ◌<◌, ◌≡◌, refl, [], ◌∷◌, ◌++◌, if◌then◌else◌, ◌==◌, ltb, arith, Text,
  codes,
}

abbrev pub hex_digit : ℕ → ℕ
hex_digit d = if ltb d 10 then b'0' + d else b'A' + (d - 10)

-- The last digits of a number, without leading zeros.
unfoldable pub hex_digits : ℕ → ℕ → Text
hex_digits zero n = []
hex_digits (suc k) n =
    let rest = hex_digits k (n / 16) in if n == 0 then [] else rest ++ (hex_digit (n % 16) ∷ [])

unfoldable pub hexadecimal : ℕ → Text
unfolding hex_digits
hexadecimal n = if n == 0 then codes "0" else hex_digits 8 n

abbrev pub digit_value : ℕ → ℕ
digit_value c = if ltb c b'A' then c - b'0' else c - b'A' + 10

-- The number that a text of digits stands for.
unfoldable pub hex_value_from : ℕ → Text → ℕ
hex_value_from n [] = n
hex_value_from n (c ∷ s) = hex_value_from (n * 16 + digit_value c) s

hex_value_from-append :
    (c : ℕ) (s : Text) (n : ℕ)
    → hex_value_from n (s ++ (c ∷ [])) ≡ hex_value_from n s * 16 + digit_value c
unfolding hex_value_from
hex_value_from-append c [] n = refl
hex_value_from-append c (d ∷ s) n = hex_value_from-append c s _

digit_value-hex_digit : (d : ℕ) → d < 16 → digit_value (hex_digit d) ≡ d
digit_value-hex_digit d h = ground arith

sixteenth-lt : (k n : ℕ) → n < 16 ^ suc k → n / 16 < 16 ^ k
sixteenth-lt k n h = let unfolded = pow.suc 16 k in ground arith

value-hex_digits : (k n : ℕ) → n < 16 ^ k → hex_value_from 0 (hex_digits k n) ≡ n
unfolding hex_digits hex_value_from
value-hex_digits zero n h = ground arith
value-hex_digits (suc k) n h =
    let last = hex_value_from-append (hex_digit (n % 16)) (hex_digits k (n / 16)) 0 in
    let before = value-hex_digits k (n / 16) (sixteenth-lt k n h) in
    let digit = digit_value-hex_digit (n % 16) (omega arith) in ground (arith, last, before, digit)

-- Eight digits are enough for a number of 32 bits: what is printed stands for the number.
pub value-hexadecimal : (n : ℕ) → n < 2 ^ 32 → hex_value_from 0 (hexadecimal n) ≡ n
unfolding hexadecimal hex_value_from
value-hexadecimal n h =
    let fits : n < 16 ^ 8 = ground arith in ground (arith, value-hex_digits 8 n fits)
