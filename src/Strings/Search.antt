-- ===== src/Strings/Search.antt =====
-- `strings.Index`, `LastIndex`, `HasPrefix` and `Contains`. An index is given by the two slices
-- around the character found, which is all that the program makes of it.
use termcp_relay.Prelude.{
  ℕ, ◌≡◌, ◌≢◌, refl, ap, inl, inr, Bool, true, false, ◌&&◌, ◌||◌, [], ◌∷◌, ◌++◌, arith, ◌==◌,
  if◌then◌else◌, All, Text, Option, none, some, Option-cases, Bool-cases,
}

-- `i := strings.Index(s, sep)` with `s[:i]` and `s[i+1:]`.
unfoldable pub cut : ℕ → Text → Option (Text × Text)
cut sep [] = none
cut sep (c ∷ s) =
    let rest = cut sep s in
    if c == sep
    then some ([], s)
    else elim rest [ none ↦ none | some (before, after) ↦ some (c ∷ before, after) ]

-- `i := strings.LastIndex(s, sep)` with `s[:i]` and `s[i+1:]`.
unfoldable pub cut_last : ℕ → Text → Option (Text × Text)
cut_last sep [] = none
cut_last sep (c ∷ s) = elim (cut_last sep s) [
  | some (before, after) ↦ some (c ∷ before, after)
  | none ↦ if c == sep then some ([], s) else none
]

unfoldable pub has_prefix : Text → Text → Bool
has_prefix s [] = true
has_prefix [] (p ∷ ps) = false
has_prefix (c ∷ s) (p ∷ ps) = c == p && has_prefix s ps

-- `strings.Contains`.
unfoldable pub contains : Text → Text → Bool
unfolding has_prefix
contains [] p = has_prefix [] p
contains (c ∷ s) p = has_prefix (c ∷ s) p || contains s p

-- The text around the first separator, if it holds one.
pub cut-append :
    (sep : ℕ) (p s : Text) → All (λ c. c ≢ sep) p → cut sep (p ++ (sep ∷ s)) ≡ some (p, s)
unfolding cut
cut-append sep [] s h = ground arith
cut-append sep (c ∷ p) s h = rw (cut-append sep p s h.1) (ground (arith, h.0))

-- What stands around the first separator, if there is one.
abbrev pub IsCut : ℕ → Text → Option (Text × Text) → Type 0
IsCut sep s none = Unit
IsCut sep s (some (before, after)) = (s ≡ before ++ (sep ∷ after)) × All (λ c. c ≢ sep) before

pub cut-IsCut : (sep : ℕ) (s : Text) → IsCut sep s (cut sep s)
unfolding cut
cut-IsCut sep [] = tt
cut-IsCut sep (c ∷ s) = elim (Bool-cases (c == sep)) [
  | inl same ↦ rw same (ground arith, tt)
  | inr other ↦ elim (Option-cases (cut sep s)) [
    | inl gone ↦ rw (other, gone, cut) tt
    | inr ((before, after), found) ↦
        let ih : IsCut sep s (some (before, after)) = rw found at (cut-IsCut sep s) in
        rw (other, found, cut) (ap (◌∷◌ c) ih.0, (ground arith, ih.1))
  ]
]

-- A text in which `cut` finds something is not without the separator.
pub cut-none : (sep : ℕ) (s : Text) → cut sep s ≡ none → All (λ c. c ≢ sep) s
unfolding cut
cut-none sep [] e = tt
cut-none sep (c ∷ s) e = (ground arith, cut-none sep s (ground arith))

pub has_prefix-append : (p s : Text) → has_prefix (p ++ s) p ≡ true
unfolding has_prefix
has_prefix-append [] s = refl
has_prefix-append (c ∷ p) s = ground (arith, has_prefix-append p s)
