-- ===== src/Flags.antt =====
-- Go's package `flag`, as main.go and internal/service/cli.go use it: flag sets with texts and
-- Booleans, which exit the program on an error.
pub mod Laws
use termcp_relay.Prelude.{
  ℕ, Bool, true, false, ◌||◌, List, [], ◌∷◌, Option, none, some, if◌then◌else◌, Text, codes, ◌=t=◌,
  ◌==◌, Result, ok, err,
}
use termcp_relay.Strings.{cut}
use termcp_relay.Dict.{Dict, insert, member}

pub data Kind : Type 0 where
  textual boolean : Kind

-- The flags that a set defines, by name.
abbrev pub FlagSet : Type 0
FlagSet = Text → Option Kind

-- What one argument is.
pub data Token : Type 0 where
  positional terminator bad : Token
  named : Text → Option Text → Token

-- The name of a flag, with the value behind an equals sign.
unfoldable pub split_name : Text → Token
split_name [] = bad
split_name (c ∷ name) = if c == b'-' || c == b'=' then bad else elim (cut b'=' (c ∷ name)) [
  | none ↦ named (c ∷ name) none
  | some (before, value) ↦ named before (some value)
]

unfoldable pub token : Text → Token
unfolding split_name cut
token (c ∷ d ∷ []) =
    if c == b'-' then (if d == b'-' then terminator else split_name (d ∷ [])) else positional
token (c ∷ d ∷ e ∷ s) =
    if c == b'-'
    then (if d == b'-' then split_name (e ∷ s) else split_name (d ∷ e ∷ s))
    else positional
token _ = positional

-- `strconv.ParseBool`
unfoldable pub parse_bool : Text → Option Bool
parse_bool s =
    if member s
      (codes "1" ∷ codes "t" ∷ codes "T" ∷ codes "TRUE" ∷ codes "true" ∷ codes "True" ∷ [])
    then some true
    else if member s
        (codes "0" ∷ codes "f" ∷ codes "F" ∷ codes "FALSE" ∷ codes "false" ∷ codes "False" ∷ [])
    then some false
    else none

abbrev pub show_bool : Bool → Text
show_bool true = codes "true"
show_bool false = codes "false"

-- What one argument does, given the values so far: the flags end before it or behind it, the program
-- exits with a code, values are set, or the flag takes the next argument.
pub data Move : Type 0 where
  ends_before ends_behind : Move
  fails : ℕ → Move
  sets : Dict Text → Move
  waits : Text → Move

unfoldable pub set_flag : Dict Text → Text → Option Text → Option Kind → Move
unfolding insert parse_bool member ◌=t=◌
set_flag values name value none =
    if name =t= codes "help" || name =t= codes "h" then fails 0 else fails 2
set_flag values name none (some boolean) = sets (insert name (show_bool true) values)
set_flag values name (some value) (some boolean) = elim (parse_bool value) [
  | none ↦ fails 2
  | some b ↦ sets (insert name (show_bool b) values)
]
set_flag values name none (some textual) = waits name
set_flag values name (some value) (some textual) = sets (insert name value values)

unfoldable pub move : FlagSet → Dict Text → Token → Move
unfolding set_flag
move formal values positional = ends_before
move formal values terminator = ends_behind
move formal values bad = fails 2
move formal values (named name value) = set_flag values name value (formal name)

-- The loop of `Parse`, with the flag that waits for its value: the values, and the arguments that are
-- left, or the code with which the program exits.
unfoldable pub parse_from :
    FlagSet → Dict Text → Option Text → List Text → Result ℕ (Dict Text × List Text)
unfolding move token
parse_from formal values none [] = ok (values, [])
parse_from formal values (some name) [] = err 2
parse_from formal values (some name) (a ∷ args) = parse_from formal (insert name a values) none args
parse_from formal values none (a ∷ args) = elim (move formal values (token a)) [
  | ends_before ↦ ok (values, a ∷ args)
  | ends_behind ↦ ok (values, args)
  | fails code ↦ err code
  | sets values' ↦ parse_from formal values' none args
  | waits name ↦ parse_from formal values (some name) args
]

-- `fs.Parse`, with the defaults of the flags.
unfoldable pub parse_flags : FlagSet → Dict Text → List Text → Result ℕ (Dict Text × List Text)
unfolding parse_from
parse_flags formal defaults args = parse_from formal defaults none args
