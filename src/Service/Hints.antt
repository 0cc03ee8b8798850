-- ===== src/Service/Hints.antt =====
-- `listenableIPv4Hints`, `portOf` and `currentUser`: how the daemon can be reached, for the log.
pub mod Laws
use termcp_relay.Prelude.{
  ℕ, Bool, true, false, not, ◌&&◌, ◌||◌, List, [], ◌∷◌, ◌++◌, Option, none, some, if◌then◌else◌,
  Text, codes, is_nil, ◌==◌, ◌=t=◌, ltb,
}
use termcp_relay.Strings.{trim_space, is_blank, cut, cut_last, decimal}
use termcp_relay.Dict.{member}

-- `net.SplitHostPort`, with the text before the last colon and the text behind it.
unfoldable pub contains_char : ℕ → Text → Bool
contains_char c [] = false
contains_char c (d ∷ s) = d == c || contains_char c s

unfoldable pub bracketed : Text → Text → Option (Text × Text) → Option (Text × Text)
bracketed s port (some (host, [])) =
    if contains_char b'[' host || contains_char b'[' port || contains_char b']' port
    then none
    else some (host, port)
bracketed s port (some (host, c ∷ more)) = none
bracketed s port none = none

unfoldable pub split_around : Option (Text × Text) → Option (Text × Text)
unfolding bracketed contains_char cut
split_around none = none
split_around (some ([], port)) =
    if contains_char b'[' port || contains_char b']' port then none else some ([], port)
split_around (some (c ∷ before, port)) =
    if c == b'['
    then bracketed before port (cut b']' before)
    else if contains_char b':' (c ∷ before)
        || contains_char b'[' ((c ∷ before) ++ port)
        || contains_char b']' ((c ∷ before) ++ port)
    then none
    else some (c ∷ before, port)

unfoldable pub net_split_host_port : Text → Option (Text × Text)
unfolding split_around cut_last
net_split_host_port address = split_around (cut_last b':' address)

-- An address of an interface: a network or a single address with its bytes, or of another type.
pub data Address : Type 0 where
  ip : List ℕ → Address
  other_address : Address

pub record Interface : Type 0 where
  pub up : Bool
  pub loopback : Bool
  pub addrs : Option (List Address)

-- `To4`: four bytes, or sixteen that hold four in their end.
pub record V4 : Type 0 where
  pub a : ℕ
  pub b : ℕ
  pub c : ℕ
  pub d : ℕ

unfoldable pub four : List ℕ → Option V4
four (a ∷ b ∷ c ∷ d ∷ []) = some (record { a = a; b = b; c = c; d = d })
four _ = none

unfoldable pub strip : List ℕ → List ℕ → Option (List ℕ)
strip [] bytes = some bytes
strip (p ∷ prefix) [] = none
strip (p ∷ prefix) (c ∷ bytes) = let rest = strip prefix bytes in if c == p then rest else none

-- What an IPv4 address begins with that is written as one of sixteen bytes.
abbrev mapped : List ℕ
mapped = 0 ∷ 0 ∷ 0 ∷ 0 ∷ 0 ∷ 0 ∷ 0 ∷ 0 ∷ 0 ∷ 0 ∷ 255 ∷ 255 ∷ []

unfoldable pub to4 : List ℕ → Option V4
unfolding four strip
to4 bytes = elim (four bytes) [
  | some v ↦ some v
  | none ↦ elim (strip mapped bytes) [ none ↦ none | some rest ↦ four rest ]
]

-- `String`
unfoldable pub show_v4 : V4 → Text
unfolding decimal
show_v4 v = decimal v.a ++ (b'.' ∷ decimal v.b) ++ (b'.' ∷ decimal v.c) ++ (b'.' ∷ decimal v.d)

-- The text of an address that is hinted at, if it is one.
unfoldable pub shown_v4 : Option V4 → Option Text
unfolding show_v4
shown_v4 none = none
shown_v4 (some v) = if v.a == 127 then none else some (show_v4 v)

unfoldable pub hint_of : Address → Option Text
unfolding to4 shown_v4
hint_of (ip bytes) = shown_v4 (to4 bytes)
hint_of other_address = none

-- One round of the inner loop, with what was found so far.
unfoldable pub add_hint : List Text → Option Text → List Text
unfolding member
add_hint out none = out
add_hint out (some s) = if member s out then out else out ++ (s ∷ [])

unfoldable pub add_addrs : List Text → List Address → List Text
unfolding add_hint hint_of
add_addrs out [] = out
add_addrs out (a ∷ addrs) = add_addrs (add_hint out (hint_of a)) addrs

unfoldable pub add_interface : List Text → Interface → List Text
unfolding add_addrs
add_interface out i =
    if not i.up || i.loopback
    then out
    else elim i.addrs [ none ↦ out | some addrs ↦ add_addrs out addrs ]

unfoldable pub add_interfaces : List Text → List Interface → List Text
unfolding add_interface
add_interfaces out [] = out
add_interfaces out (i ∷ is) = add_interfaces (add_interface out i) is

-- The order of texts that `sort.Strings` uses.
unfoldable pub text_less : Text → Text → Bool
text_less [] [] = false
text_less [] (d ∷ t) = true
text_less (c ∷ s) [] = false
text_less (c ∷ s) (d ∷ t) = ltb c d || (c == d && text_less s t)

-- `sort.Strings`
unfoldable pub insert_sorted : Text → List Text → List Text
unfolding text_less
insert_sorted s [] = s ∷ []
insert_sorted s (t ∷ ts) =
    let rest = insert_sorted s ts in if text_less t s then t ∷ rest else s ∷ t ∷ ts

unfoldable pub sort_strings : List Text → List Text
unfolding insert_sorted
sort_strings [] = []
sort_strings (t ∷ ts) = insert_sorted t (sort_strings ts)

-- The host of an address on which every interface listens.
unfoldable pub is_wildcard : Text → Bool
unfolding member trim_space
is_wildcard host = member (trim_space host) ([] ∷ codes "0.0.0.0" ∷ codes "::" ∷ codes "[::]" ∷ [])

-- The end of `listenableIPv4Hints`; `net.Interfaces` may fail.
unfoldable pub hints_for : Option (Text × Text) → Option (List Interface) → List Text
unfolding is_wildcard add_interfaces sort_strings
hints_for none interfaces = []
hints_for (some (host, port)) none = []
hints_for (some (host, port)) (some interfaces) =
    if is_wildcard host then sort_strings (add_interfaces [] interfaces) else []

-- `listenableIPv4Hints`
unfoldable pub listenable_ipv4_hints : Text → Option (List Interface) → List Text
unfolding hints_for net_split_host_port
listenable_ipv4_hints bound interfaces = hints_for (net_split_host_port bound) interfaces

-- `portOf`
unfoldable pub port_of : Text → Text
unfolding net_split_host_port
port_of address = elim (net_split_host_port address) [ none ↦ [] | some (host, port) ↦ port ]

-- `currentUser`, with the environment.
unfoldable pub current_user : (Text → Text) → Text
unfolding trim_space
current_user getenv =
    let user = trim_space (getenv (codes "USER")) in
    let username = trim_space (getenv (codes "USERNAME")) in
    if not (is_nil user) then user else if not (is_nil username) then username else codes "user"
