-- ===== src/Prelude/Texts.antt =====
-- Texts as lists of code points, and equality of texts as a Boolean test.
use Prim.Native.Nat.{ℕ}
use Prim.Native.Char.{code}
use Prim.Native.String.{String}
use mathlib.Core.Path.{◌≡◌, refl}
use mathlib.Core.Logic.{◌↔◌}
use mathlib.Core.Bool.{Bool, true, false, ◌&&◌}
use mathlib.Core.List.{List, [], ◌∷◌}
use native.Mathlib.Omega.{arith}
use termcp_relay.Prelude.Tests.{◌==◌}

-- A Go `string` that holds valid UTF-8, rune by rune.
abbrev pub Text : Type 0
Text = List ℕ

-- The text of a literal.
abbrev pub codes : String → Text
codes String.[] = []
codes (String.◌∷◌ c s) = code c ∷ codes s

infix 50 ◌=t=◌
unfoldable pub ◌=t=◌ : Text → Text → Bool
[] =t= [] = true
(x ∷ xs) =t= (y ∷ ys) = x == y && xs =t= ys
_ =t= _ = false

pub text_iff : (s t : Text) → (s =t= t ≡ true) ↔ (s ≡ t)
unfolding ◌=t=◌
text_iff (x ∷ s) (y ∷ t) = ground (arith, text_iff s t)
text_iff _ _ = ground arith

pub text_refl : (s : Text) → s =t= s ≡ true
text_refl s = (text_iff s s).1 refl
