-- ===== src/Flags/Laws.antt =====
-- The arguments that set one flag, and what is then read of the values.
use termcp_relay.Prelude.{
  ◌≡◌, refl, true, List, [], ◌∷◌, ◌++◌, none, some, if◌then◌else◌, Text, ◌=t=◌, is_nil, arith,
}
use termcp_relay.Dict.{Dict, insert, get_text, lookup-insert}
use termcp_relay.Cli.Args.{value_flag}
use termcp_relay.Flags.{
  FlagSet, textual, boolean, named, token, move, set_flag, parse_from, show_bool,
}

-- A flag that is spelled with two dashes.
abbrev pub dashed : Text → Text
dashed name = b'-' ∷ b'-' ∷ name

-- The values once a flag is set, unless what it would be set to is empty.
abbrev pub given : Text → Text → Dict Text → Dict Text
given name value values = if is_nil value then values else insert name value values

module _ (formal : FlagSet) (values : Dict Text) (name : Text) (rest : List Text) where
  -- A textual flag takes the argument behind it, whatever that looks like.
  pub parse_from-textual :
      token (dashed name) ≡ named name none
      → formal name ≡ some textual
      → (value : Text)
      → parse_from formal values none (dashed name ∷ value ∷ rest)
        ≡ parse_from formal (insert name value values) none rest
  unfolding parse_from
  parse_from-textual spelled known value = rw (spelled, known, parse_from, move, set_flag)

  pub parse_from-value_flag :
      token (dashed name) ≡ named name none
      → formal name ≡ some textual
      → (value : Text)
      → parse_from formal values none (value_flag (dashed name) value ++ rest)
        ≡ parse_from formal (given name value values) none rest
  parse_from-value_flag spelled known [] = refl
  parse_from-value_flag spelled known (c ∷ value) = parse_from-textual spelled known (c ∷ value)

  pub parse_from-boolean :
      token (dashed name) ≡ named name none
      → formal name ≡ some boolean
      → parse_from formal values none (dashed name ∷ rest)
        ≡ parse_from formal (insert name (show_bool true) values) none rest
  unfolding parse_from
  parse_from-boolean spelled known = rw (spelled, known, parse_from, move, set_flag)

pub get_text-insert :
    (k name value : Text) (values : Dict Text)
    → get_text k (insert name value values) ≡ (if name =t= k then value else get_text k values)
get_text-insert k name value values = ground (arith, lookup-insert name k value values)

pub get_text-given :
    (k name value : Text) (values : Dict Text)
    → get_text k (given name value values) ≡ (
        if name =t= k
        then (if is_nil value then get_text k values else value)
        else get_text k values)
get_text-given k name [] values = ground arith
get_text-given k name (c ∷ value) values = get_text-insert k name (c ∷ value) values

-- A flag whose default is empty.
pub unless_nil : (value : Text) → (if is_nil value then [] else value) ≡ value
unless_nil [] = refl
unless_nil (c ∷ value) = refl
