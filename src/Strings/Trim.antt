-- ===== src/Strings/Trim.antt =====
-- `strings.TrimSpace`.
use termcp_relay.Prelude.{
  ℕ, ◌≡◌, refl, inl, inr, Bool, true, false, ◌&&◌, ◌||◌, [], ◌∷◌, arith, subst, leb, ◌==◌,
  if◌then◌else◌, is_nil, All, Text, Bool-cases,
}

-- `unicode.IsSpace`.
unfoldable pub is_space : ℕ → Bool
is_space c =
    (leb 9 c && leb c 13)
    || c == 32
    || c == 0x85
    || c == 0xa0
    || c == 0x1680
    || (leb 0x2000 c && leb c 0x200a)
    || c == 0x2028
    || c == 0x2029
    || c == 0x202f
    || c == 0x205f
    || c == 0x3000

unfoldable pub trim_left : Text → Text
trim_left [] = []
trim_left (c ∷ s) = let rest = trim_left s in if is_space c then rest else c ∷ s

unfoldable pub trim_right : Text → Text
trim_right [] = []
trim_right (c ∷ s) = let rest = trim_right s in if is_space c && is_nil rest then [] else c ∷ rest

unfoldable pub trim_space : Text → Text
unfolding is_space trim_left trim_right
trim_space s = trim_right (trim_left s)

-- `strings.TrimSpace(s) == ""`
unfoldable pub is_blank : Text → Bool
unfolding trim_space
is_blank s = is_nil (trim_space s)

-- A text with no space at either end.
abbrev pub IsTrimmed : Text → Type 0
IsTrimmed s = trim_space s ≡ s

abbrev Leads : Text → Type 0
Leads [] = Unit
Leads (c ∷ s) = is_space c ≡ false

trim_left-Leads : (s : Text) → Leads (trim_left s)
unfolding trim_left
trim_left-Leads [] = tt
trim_left-Leads (c ∷ s) = elim (Bool-cases (is_space c)) [
  | inl sp ↦ rw sp (trim_left-Leads s)
  | inr ns ↦ rw ns ns
]

trim_right-Leads : (s : Text) → Leads s → Leads (trim_right s)
unfolding trim_right
trim_right-Leads [] h = tt
trim_right-Leads (c ∷ s) h = rw h h

trim_left_of_Leads : (s : Text) → Leads s → trim_left s ≡ s
unfolding trim_left
trim_left_of_Leads [] h = refl
trim_left_of_Leads (c ∷ s) h = rw h

trim_right_idem : (s : Text) → trim_right (trim_right s) ≡ trim_right s
unfolding trim_right
trim_right_idem [] = refl
trim_right_idem (c ∷ s) = ground (arith, trim_right_idem s)

pub trim_space_idem : (s : Text) → trim_space (trim_space s) ≡ trim_space s
trim_space_idem s =
    unfold trim_space in
    rw (trim_left_of_Leads (trim_right (trim_left s)) (trim_right-Leads _ (trim_left-Leads s)))
      (trim_right_idem (trim_left s))

-- A trimmed text stays so behind two characters that are no spaces.
pub IsTrimmed-cons :
    (c d : ℕ) (s : Text)
    → is_space c ≡ false
    → is_space d ≡ false
    → IsTrimmed s
    → IsTrimmed (c ∷ d ∷ s)
unfolding trim_space trim_left trim_right
IsTrimmed-cons c d s first second trimmed =
    let kept : trim_right s ≡ s =
      subst (λ t. trim_right t ≡ t) trimmed (trim_right_idem (trim_left s)) in
    ground (arith, first, second, kept)

module _ {ℓ} (P : ℕ → Type ℓ) where
  trim_left-All : (s : Text) → All P s → All P (trim_left s)
  unfolding trim_left
  trim_left-All [] h = h
  trim_left-All (c ∷ s) h = elim (Bool-cases (is_space c)) [
    | inl sp ↦ rw sp (trim_left-All s h.1)
    | inr ns ↦ rw ns h
  ]

  trim_right-All : (s : Text) → All P s → All P (trim_right s)
  unfolding trim_right
  trim_right-All [] h = h
  trim_right-All (c ∷ s) h = elim (Bool-cases (is_space c && is_nil (trim_right s))) [
    | inl sp ↦ rw sp tt
    | inr ns ↦ rw ns (h.0, trim_right-All s h.1)
  ]

  -- Trimming only takes characters away.
  pub trim_space-All : (s : Text) → All P s → All P (trim_space s)
  unfolding trim_space
  trim_space-All s h = trim_right-All (trim_left s) (trim_left-All s h)

-- A space in front makes no difference.
pub is_blank-cons_space : (c : ℕ) (s : Text) → is_space c ≡ true → is_blank (c ∷ s) ≡ is_blank s
unfolding is_blank trim_space trim_left
is_blank-cons_space c s h = rw h

pub is_blank-trim_space : (s : Text) → is_blank (trim_space s) ≡ is_nil (trim_space s)
is_blank-trim_space s = unfold is_blank in rw (trim_space_idem s)
