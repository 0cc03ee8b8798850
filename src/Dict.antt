-- ===== src/Dict.antt =====
-- Go maps with text keys, as association lists, and sets of texts as lists. Only look-ups are made
-- of a Go map's content by the program, so the order of the pairs is not observed.
use mathlib.Core.Option.{get_or}
use termcp_relay.Prelude.{
  ◌≡◌, refl, Bool, false, ◌||◌, List, [], ◌∷◌, ◌++◌, Option, none, some, arith, Text, ◌=t=◌,
  text_iff, if◌then◌else◌,
}

abbrev pub Dict {ℓ} : Type ℓ → Type ℓ
Dict V = List (Text × V)

module _ {ℓ} {V : Type ℓ} where
  unfoldable pub lookup : Text → Dict V → Option V
  unfolding ◌=t=◌
  lookup k [] = none
  lookup k ((j, v) ∷ m) = if j =t= k then some v else lookup k m

  -- `m[k] = v`
  unfoldable pub insert : Text → V → Dict V → Dict V
  unfolding ◌=t=◌
  insert k v [] = (k, v) ∷ []
  insert k v ((j, w) ∷ m) = if j =t= k then (k, v) ∷ m else (j, w) ∷ insert k v m

  pub lookup-nil : (k : Text) → lookup k [] ≡ none
  unfolding lookup
  lookup-nil k = refl

  pub lookup-insert :
      (k j : Text) (v : V) (m : Dict V)
      → lookup j (insert k v m) ≡ (if k =t= j then some v else lookup j m)
  unfolding lookup insert
  lookup-insert k j v [] = refl
  lookup-insert k j v ((i, w) ∷ m) =
      ground (arith, text_iff k j, text_iff i k, text_iff i j, lookup-insert k j v m)

  -- `delete(m, k)`
  unfoldable pub remove : Text → Dict V → Dict V
  unfolding ◌=t=◌
  remove k [] = []
  remove k ((j, v) ∷ m) = let rest = remove k m in if j =t= k then rest else (j, v) ∷ rest

  pub lookup-remove :
      (k j : Text) (m : Dict V) → lookup j (remove k m) ≡ (if k =t= j then none else lookup j m)
  unfolding lookup remove
  lookup-remove k j [] = ground arith
  lookup-remove k j ((i, w) ∷ m) =
      ground (arith, text_iff k j, text_iff i k, text_iff i j, lookup-remove k j m)

-- `m[k]` where `m` is a `map[string]string`: the zero value for a missing key.
abbrev pub get_text : Text → Dict Text → Text
get_text k m = get_or (lookup k m) []

-- `seen[k]` where `seen` is a `map[string]bool`.
unfoldable pub member : Text → List Text → Bool
unfolding ◌=t=◌
member k [] = false
member k (x ∷ xs) = k =t= x || member k xs

pub member-append :
    (k : Text) (xs ys : List Text) → member k (xs ++ ys) ≡ (member k xs || member k ys)
unfolding member
member-append k [] ys = refl
member-append k (x ∷ xs) ys = ground (arith, member-append k xs ys)

pub member-cons : (k x : Text) (xs : List Text) → member k (x ∷ xs) ≡ (k =t= x || member k xs)
unfolding member
member-cons k x xs = refl
