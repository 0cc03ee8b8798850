-- ===== src/Config/Address.antt =====
-- `splitHostPort` and `isLoopback`: the test for an address that only this machine can reach.
use termcp_relay.Prelude.{
  ◌≡◌, refl, ap, inl, inr, Bool, List, [], ◌∷◌, ◌++◌, Option, none, some, arith, Text, codes, ◌⊎◌,
  Option-cases, Bool-cases, ◌==◌,
}
use termcp_relay.Strings.{trim_space, cut_last, Lacks}
use termcp_relay.Dict.{member}

-- The host and the port, around the last colon.
unfoldable pub split_host_port : Text → Text × Text
unfolding cut_last
split_host_port addr = elim (cut_last b':' addr) [ none ↦ (addr, []) | some parts ↦ parts ]

abbrev pub loopback_names : List Text
loopback_names = [] ∷ codes "127.0.0.1" ∷ codes "localhost" ∷ codes "::1" ∷ codes "[::1]" ∷ []

unfoldable pub is_loopback : Text → Bool
unfolding trim_space member
is_loopback host = member (trim_space host) loopback_names

-- The parts around the last separator, if there is one.
abbrev IsLastCut : Text → Option (Text × Text) → Type 0
IsLastCut s none = Lacks b':' s
IsLastCut s (some (before, after)) = (s ≡ before ++ (b':' ∷ after)) × Lacks b':' after

cut_last-IsLastCut : (s : Text) → IsLastCut s (cut_last b':' s)
unfolding cut_last
cut_last-IsLastCut [] = tt
cut_last-IsLastCut (c ∷ s) = elim (Option-cases (cut_last b':' s)) [
  | inr ((before, after), found) ↦
      let ih : IsLastCut s (some (before, after)) = rw found at (cut_last-IsLastCut s) in
      rw (found, cut_last) (ap (◌∷◌ c) ih.0, ih.1)
  | inl gone ↦
      let ih : IsLastCut s none = rw gone at (cut_last-IsLastCut s) in
      elim (Bool-cases (c == b':')) [
        | inl same ↦ rw (gone, cut_last) (rw same (ground arith, ih))
        | inr other ↦ rw (gone, cut_last) (rw other (ground arith, ih))
      ]
]

-- An address with a colon is its host and its port with the last colon between them; one without
-- is all host.
pub split_host_port_lem :
    (addr : Text)
    → let (host, port) = split_host_port addr in
      ((addr ≡ host ++ (b':' ∷ port)) × Lacks b':' port)
      ⊎ ((addr ≡ host) × (port ≡ []) × Lacks b':' addr)
unfolding split_host_port
split_host_port_lem addr = elim (Option-cases (cut_last b':' addr)) [
  | inr ((before, after), found) ↦
      let parts : IsLastCut addr (some (before, after)) = rw found at (cut_last-IsLastCut addr) in
      rw (found, split_host_port) (inl parts)
  | inl gone ↦
      let lacks : IsLastCut addr none = rw gone at (cut_last-IsLastCut addr) in
      rw (gone, split_host_port) (inr (refl, refl, lacks))
]

cut_last_of_Lacks : (s : Text) → Lacks b':' s → cut_last b':' s ≡ none
unfolding cut_last
cut_last_of_Lacks [] h = refl
cut_last_of_Lacks (c ∷ s) h = rw (cut_last_of_Lacks s h.1, cut_last) (ground (arith, h.0))

cut_last-append :
    (host port : Text) → Lacks b':' port → cut_last b':' (host ++ (b':' ∷ port)) ≡ some (host, port)
unfolding cut_last
cut_last-append [] port h = rw (cut_last_of_Lacks port h, cut_last) refl
cut_last-append (c ∷ host) port h = rw (cut_last-append host port h, cut_last) refl

pub split_host_port-append :
    (host port : Text) → Lacks b':' port → split_host_port (host ++ (b':' ∷ port)) ≡ (host, port)
unfolding split_host_port
split_host_port-append host port h = rw (cut_last-append host port h, split_host_port)
