-- ===== src/Windows/CommandLine.antt =====
-- `joinArgs` of internal/service/elevate_windows.go, with `EscapeArg` of Go's package syscall, and the
-- way a Go program on Windows reads its command line.
pub mod Laws
use Prim.Native.Nat.{◌/◌, ◌%◌}
use termcp_relay.Prelude.{
  ℕ, zero, suc, Bool, true, false, not, ◌&&◌, ◌||◌, List, [], ◌∷◌, ◌++◌, Option, none, some,
  if◌then◌else◌, Text, codes, ◌==◌, is_nil,
}

abbrev pub is_separator : ℕ → Bool
is_separator c = c == b' ' || c == b'\t'

unfoldable pub has_separator : Text → Bool
has_separator [] = false
has_separator (c ∷ s) = is_separator c || has_separator s

unfoldable pub backslashes : ℕ → Text
backslashes zero = []
backslashes (suc n) = b'\\' ∷ backslashes n

-- The loop of `EscapeArg`, with the number of backslashes that were just passed, and whether the
-- text is put between quotes.
unfoldable pub escape_from : ℕ → Bool → Text → Text
unfolding backslashes
escape_from n quoted [] = if quoted then backslashes n ++ (b'"' ∷ []) else []
escape_from n quoted (c ∷ s) =
    let fresh = escape_from 0 quoted s in
    let more = escape_from (suc n) quoted s in
    if c == b'\\'
    then b'\\' ∷ more
    else if c == b'"'
    then backslashes n ++ (b'\\' ∷ b'"' ∷ fresh)
    else c ∷ fresh

-- `syscall.EscapeArg`
unfoldable pub escape_arg : Text → Text
unfolding escape_from has_separator
escape_arg [] = b'"' ∷ b'"' ∷ []
escape_arg (c ∷ s) =
    if has_separator (c ∷ s) then b'"' ∷ escape_from 0 true (c ∷ s) else escape_from 0 false (c ∷ s)

-- `joinArgs`
unfoldable pub join_args : List Text → Text
unfolding escape_arg
join_args [] = []
join_args (a ∷ []) = escape_arg a
join_args (a ∷ b ∷ args) = escape_arg a ++ (b' ' ∷ join_args (b ∷ args))

-- An argument that is being read: what there is of it, whether the reader is between quotes, whether
-- it has just left them, and the backslashes just passed.
pub record Reading : Type 0 where
  pub text : Text
  pub quoted : Bool
  pub left : Bool
  pub slashes : ℕ

-- A character continues the argument, or ends it.
pub data Read : Type 0 where
  goes_on : Reading → Read
  ends : Text → Read

abbrev begun : Reading
begun = record { text = []; quoted = false; left = false; slashes = 0 }

-- One round of the loop. Backslashes stand for themselves unless a quote follows; then two are one,
-- and an odd one makes the quote a part of the argument. A second quote after one that ends quotes
-- is a part of the argument too.
unfoldable pub read_char : Reading → ℕ → Read
unfolding backslashes
read_char r c =
    if c == b'\\'
    then goes_on (record r { left = false; slashes = suc r.slashes })
    else if c == b'"'
    then (if not (r.slashes % 2 == 0) || r.left
        then goes_on (record {
          text = r.text ++ (backslashes (r.slashes / 2) ++ (b'"' ∷ []));
          quoted = r.quoted;
          left = false;
          slashes = 0;
        })
        else goes_on (record {
          text = r.text ++ backslashes (r.slashes / 2);
          quoted = not r.quoted;
          left = r.quoted;
          slashes = 0;
        }))
    else if is_separator c && not r.quoted
    then ends (r.text ++ backslashes r.slashes)
    else goes_on (record {
      text = r.text ++ (backslashes r.slashes ++ (c ∷ []));
      quoted = r.quoted;
      left = false;
      slashes = 0;
    })

-- The arguments of a command line, with the one that is being read.
unfoldable pub argv_from : Option Reading → Text → List Text
unfolding read_char
argv_from none [] = []
argv_from (some r) [] = (r.text ++ backslashes r.slashes) ∷ []
argv_from none (c ∷ s) = if is_separator c then argv_from none s else elim (read_char begun c) [
  | goes_on r' ↦ argv_from (some r') s
  | ends a ↦ a ∷ argv_from none s
]
argv_from (some r) (c ∷ s) = elim (read_char r c) [
  | goes_on r' ↦ argv_from (some r') s
  | ends a ↦ a ∷ argv_from none s
]

unfoldable pub argv : Text → List Text
unfolding argv_from
argv line = argv_from none line
