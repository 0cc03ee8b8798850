-- ===== src/Strings/Case.antt =====
-- `strings.ToUpper`, `ToLower` and `EqualFold`: rune by rune, by the tables of package `unicode`.
use mathlib.Core.List.{map-append}
use termcp_relay.Prelude.{
  ℕ, ◌+◌, ◌-◌, ◌<◌, ◌≡◌, refl, Bool, ◌&&◌, [], ◌∷◌, ◌++◌, map, arith, leb, if◌then◌else◌, Text,
  ◌=t=◌,
}

abbrev pub ascii_upper : ℕ → ℕ
ascii_upper c = if leb b'a' c && leb c b'z' then c - 32 else c

abbrev pub ascii_lower : ℕ → ℕ
ascii_lower c = if leb b'A' c && leb c b'Z' then c + 32 else c

-- The three tables, with what the program relies on: they are the known ones on ASCII, upper case
-- is a fixed point of `unicode.ToUpper` and lower case of `unicode.ToLower`, and no other rune has
-- the upper case `=`. `fold` is the least member of the orbit of `unicode.SimpleFold`, lowered.
pub record Unicode : Type 0 where
  pub upper : ℕ → ℕ
  pub lower : ℕ → ℕ
  pub fold : ℕ → ℕ
  pub upper_ascii : (c : ℕ) → c < 128 → upper c ≡ ascii_upper c
  pub lower_ascii : (c : ℕ) → c < 128 → lower c ≡ ascii_lower c
  pub fold_ascii : (c : ℕ) → c < 128 → fold c ≡ ascii_lower c
  pub upper_idem : (c : ℕ) → upper (upper c) ≡ upper c
  pub lower_idem : (c : ℕ) → lower (lower c) ≡ lower c
  pub upper_equals : (c : ℕ) → upper c ≡ b'=' → c ≡ b'='

pub ascii_upper_idem : (c : ℕ) → ascii_upper (ascii_upper c) ≡ ascii_upper c
ascii_upper_idem c = ground arith

pub ascii_lower_idem : (c : ℕ) → ascii_lower (ascii_lower c) ≡ ascii_lower c
ascii_lower_idem c = ground arith

pub ascii_upper_equals : (c : ℕ) → ascii_upper c ≡ b'=' → c ≡ b'='
ascii_upper_equals c h = ground arith

-- The tables for programs whose texts are ASCII.
instance abbrev pub ascii : Unicode
ascii = record {
  upper = ascii_upper;
  lower = ascii_lower;
  fold = ascii_lower;
  upper_ascii = λ c h. refl;
  lower_ascii = λ c h. refl;
  fold_ascii = λ c h. refl;
  upper_idem = ascii_upper_idem;
  lower_idem = ascii_lower_idem;
  upper_equals = ascii_upper_equals;
}

module _ ⦃u : Unicode⦄ where
  unfoldable pub to_upper : Text → Text
  to_upper = map u.upper

  unfoldable pub to_lower : Text → Text
  to_lower = map u.lower

  unfoldable pub equal_fold : Text → Text → Bool
  equal_fold s t = map u.fold s =t= map u.fold t

  pub to_upper-append : (s t : Text) → to_upper (s ++ t) ≡ to_upper s ++ to_upper t
  unfolding to_upper
  to_upper-append s t = map-append u.upper s t

  pub to_upper_idem : (s : Text) → to_upper (to_upper s) ≡ to_upper s
  unfolding to_upper
  to_upper_idem [] = refl
  to_upper_idem (c ∷ s) = ground (arith, u.upper_idem c, to_upper_idem s)

  pub to_lower_idem : (s : Text) → to_lower (to_lower s) ≡ to_lower s
  unfolding to_lower
  to_lower_idem [] = refl
  to_lower_idem (c ∷ s) = ground (arith, u.lower_idem c, to_lower_idem s)

  pub upper_of_equals : u.upper b'=' ≡ b'='
  upper_of_equals = u.upper_ascii b'=' (omega arith)
