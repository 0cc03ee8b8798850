-- ===== src/Host/Paths.antt =====
-- Go's package `path/filepath`, whose functions depend on the platform: an argument of the program.
use termcp_relay.Strings.{is_blank}
use termcp_relay.Prelude.{
  ℕ, ◌≡◌, refl, Bool, true, false, [], ◌∷◌, ◌++◌, Option, some, arith, ◌==◌, if◌then◌else◌, Text,
}

-- `Abs` fails where the working directory is unknown. An absolute path is not blank; `Abs`, the
-- directory of an absolute path and a join behind one are absolute, and `Abs`, which cleans a path,
-- gives a path that it has given once more as it is.
pub record Paths : Type 0 where
  pub abs : Text → Option Text
  pub dir : Text → Text
  pub is_abs : Text → Bool
  pub join : Text → Text → Text
  pub is_blank_of_abs : (p : Text) → is_abs p ≡ true → is_blank p ≡ false
  pub is_abs_of_abs : (p q : Text) → abs p ≡ some q → is_abs q ≡ true
  pub abs_of_abs : (p q : Text) → abs p ≡ some q → abs q ≡ some q
  pub is_abs-dir : (p : Text) → is_abs p ≡ true → is_abs (dir p) ≡ true
  pub is_abs-join : (d p : Text) → is_abs d ≡ true → is_abs (join d p) ≡ true

abbrev pub slash : Text → Bool
slash [] = false
slash (c ∷ s) = c == b'/'

pub slash-is_blank : (p : Text) → slash p ≡ true → is_blank p ≡ false
unfolding is_blank
slash-is_blank [] h = cc
slash-is_blank (c ∷ s) h = slash_first c s (ground arith)
  where
    slash_first : (c : ℕ) (s : Text) → c ≡ b'/' → is_blank (c ∷ s) ≡ false
    slash_first c s e = rw e refl

abbrev pub under_root : Text → Text → Text
under_root d p = if slash d then d ++ (b'/' ∷ p) else p

-- Paths under one root, for runs of the model: relative ones stand under `/`.
abbrev pub rooted_abs : Text → Option Text
rooted_abs p = some (if slash p then p else b'/' ∷ p)

pub rooted_abs-slash : (p q : Text) → rooted_abs p ≡ some q → slash q ≡ true
rooted_abs-slash [] q e = ground arith
rooted_abs-slash (c ∷ p) q e = ground arith

pub rooted_abs_again : (p q : Text) → rooted_abs p ≡ some q → rooted_abs q ≡ some q
rooted_abs_again p q e = rw (rooted_abs-slash p q e) refl

pub rooted_join-slash : (d p : Text) → slash d ≡ true → slash (under_root d p) ≡ true
rooted_join-slash [] p h = cc
rooted_join-slash (c ∷ d) p h = ground arith

abbrev pub rooted_dir : Text → Text
rooted_dir p = if slash p then b'/' ∷ [] else b'.' ∷ []

pub rooted_dir-slash : (p : Text) → slash p ≡ true → slash (rooted_dir p) ≡ true
rooted_dir-slash p h = ground arith

abbrev pub rooted : Paths
rooted = record {
  abs = rooted_abs;
  dir = rooted_dir;
  is_abs = slash;
  join = under_root;
  is_blank_of_abs = slash-is_blank;
  is_abs_of_abs = rooted_abs-slash;
  abs_of_abs = rooted_abs_again;
  is_abs-dir = rooted_dir-slash;
  is_abs-join = rooted_join-slash;
}
