-- ===== src/Service/Hints/Laws.antt =====
-- The hints are the addresses by which another machine reaches the daemon, in order.
use termcp_relay.Prelude.{
  ◌≡◌, refl, ap, ◌∙◌, Bool, true, false, not, ◌&&◌, ◌||◌, List, [], ◌∷◌, ◌++◌, Option, none, some,
  Text, ◌=t=◌, arith, text_iff, Bool-cases, Option-cases, inl, inr,
}
use termcp_relay.Dict.{member, member-append, member-cons}
use termcp_relay.Service.Hints.{
  net_split_host_port, Address, Interface, hint_of, add_hint, add_addrs, add_interface,
  add_interfaces, text_less, insert_sorted, sort_strings, is_wildcard, hints_for,
  listenable_ipv4_hints,
}

-- Whether an address is shown by the text, and whether one of an interface, or of all, is.
abbrev says : Text → Option Text → Bool
says x none = false
says x (some s) = x =t= s

unfoldable pub shows : Text → List Address → Bool
shows x [] = false
shows x (a ∷ addrs) = says x (hint_of a) || shows x addrs

abbrev given : Option (List Address) → List Address
given none = []
given (some addrs) = addrs

unfoldable pub reached_by : Text → List Interface → Bool
unfolding shows
reached_by x [] = false
reached_by x (i ∷ is) = (i.up && not i.loopback && shows x (given i.addrs)) || reached_by x is

member-nil : (x : Text) → member x [] ≡ false
unfolding member
member-nil x = refl

member-add_hint :
    (x : Text) (out : List Text) (h : Option Text)
    → member x (add_hint out h) ≡ (member x out || says x h)
unfolding add_hint
member-add_hint x out none = ground arith
member-add_hint x out (some s) = elim (Bool-cases (member s out)) [
  | inl old ↦ rw old (elim (Bool-cases (x =t= s)) [
    | inl same ↦ rw ((text_iff x s).0 same, old) refl
    | inr other ↦ ground (arith, other)
  ])
  | inr new ↦
      rw new (member-append x out (s ∷ []) ∙ ground (arith, member-cons x s [], member-nil x))
]

member-add_addrs :
    (x : Text) (out : List Text) (addrs : List Address)
    → member x (add_addrs out addrs) ≡ (member x out || shows x addrs)
unfolding add_addrs shows
member-add_addrs x out [] = ground arith
member-add_addrs x out (a ∷ addrs) =
    member-add_addrs x (add_hint out (hint_of a)) addrs
    ∙ ground (arith, member-add_hint x out (hint_of a))

member-add_interface :
    (x : Text) (out : List Text) (i : Interface)
    → member x (add_interface out i)
      ≡ (member x out || (i.up && not i.loopback && shows x (given i.addrs)))
unfolding add_interface shows
member-add_interface x out i = elim (Option-cases i.addrs) [
  | inl unknown ↦ rw unknown (ground arith)
  | inr (addrs, known) ↦ rw known (ground (arith, member-add_addrs x out addrs))
]

member-add_interfaces :
    (x : Text) (out : List Text) (is : List Interface)
    → member x (add_interfaces out is) ≡ (member x out || reached_by x is)
unfolding add_interfaces reached_by
member-add_interfaces x out [] = ground arith
member-add_interfaces x out (i ∷ is) =
    member-add_interfaces x (add_interface out i) is ∙ ground (arith, member-add_interface x out i)

member-insert_sorted :
    (x s : Text) (ts : List Text) → member x (insert_sorted s ts) ≡ (x =t= s || member x ts)
unfolding insert_sorted member
member-insert_sorted x s [] = refl
member-insert_sorted x s (t ∷ ts) = ground (arith, member-insert_sorted x s ts)

member-sort_strings : (x : Text) (ts : List Text) → member x (sort_strings ts) ≡ member x ts
unfolding sort_strings member
member-sort_strings x [] = refl
member-sort_strings x (t ∷ ts) =
    member-insert_sorted x t (sort_strings ts) ∙ ap (λ b. x =t= t || b) (member-sort_strings x ts)

-- No text occurs twice.
unfoldable Distinct : List Text → Type 0
Distinct [] = Unit
Distinct (x ∷ xs) = (member x xs ≡ false) × Distinct xs

-- Each text is less than the next.
abbrev Above : Text → List Text → Type 0
Above t [] = Unit
Above t (s ∷ ss) = text_less t s ≡ true

abbrev pub Increasing : List Text → Type 0
Increasing [] = Unit
Increasing (t ∷ ts) = Above t ts × Increasing ts

text_less_total : (s t : Text) → text_less t s ≡ false → s =t= t ≡ false → text_less s t ≡ true
unfolding text_less ◌=t=◌
text_less_total [] [] h n = absurd (ground arith)
text_less_total [] (d ∷ t) h n = refl
text_less_total (c ∷ s) [] h n = absurd (ground arith)
text_less_total (c ∷ s) (d ∷ t) h n = ground (arith, text_less_total s t)

Above-insert_sorted :
    (t s : Text) (ts : List Text) → text_less t s ≡ true → Above t ts → Above t (insert_sorted s ts)
unfolding insert_sorted
Above-insert_sorted t s [] less above = less
Above-insert_sorted t s (u ∷ us) less above = elim (Bool-cases (text_less u s)) [
  | inl h ↦ rw h above
  | inr h ↦ rw h less
]

Increasing-insert_sorted :
    (s : Text) (ts : List Text)
    → member s ts ≡ false
    → Increasing ts
    → Increasing (insert_sorted s ts)
unfolding insert_sorted member
Increasing-insert_sorted s [] new i = (tt, tt)
Increasing-insert_sorted s (t ∷ ts) new i = elim (Bool-cases (text_less t s)) [
  | inl h ↦
      rw h (Above-insert_sorted t s ts h i.0, Increasing-insert_sorted s ts (ground arith) i.1)
  | inr h ↦ rw h (text_less_total s t h (ground arith), i)
]

Increasing-sort_strings : (ts : List Text) → Distinct ts → Increasing (sort_strings ts)
unfolding sort_strings Distinct
Increasing-sort_strings [] d = tt
Increasing-sort_strings (t ∷ ts) d =
    Increasing-insert_sorted t (sort_strings ts) (member-sort_strings t ts ∙ d.0)
      (Increasing-sort_strings ts d.1)

Distinct-snoc :
    (out : List Text) (s : Text) → member s out ≡ false → Distinct out → Distinct (out ++ (s ∷ []))
unfolding Distinct member
Distinct-snoc [] s new d = (refl, tt)
Distinct-snoc (x ∷ out) s new d = (
  member-append x out (s ∷ []) ∙ ground (arith, new, d.0, text_iff x s, text_iff s x),
  Distinct-snoc out s (ground arith) d.1,
)

Distinct-add_hint : (out : List Text) (h : Option Text) → Distinct out → Distinct (add_hint out h)
unfolding add_hint
Distinct-add_hint out none d = d
Distinct-add_hint out (some s) d = elim (Bool-cases (member s out)) [
  | inl old ↦ rw old d
  | inr new ↦ rw new (Distinct-snoc out s new d)
]

Distinct-add_addrs :
    (out : List Text) (addrs : List Address) → Distinct out → Distinct (add_addrs out addrs)
unfolding add_addrs
Distinct-add_addrs out [] d = d
Distinct-add_addrs out (a ∷ addrs) d =
    Distinct-add_addrs (add_hint out (hint_of a)) addrs (Distinct-add_hint out (hint_of a) d)

Distinct-add_interface :
    (out : List Text) (i : Interface) → Distinct out → Distinct (add_interface out i)
unfolding add_interface
Distinct-add_interface out i d = elim (Bool-cases (not i.up || i.loopback)) [
  | inl skipped ↦ rw skipped d
  | inr kept ↦ rw kept (elim (Option-cases i.addrs) [
    | inl unknown ↦ rw unknown d
    | inr (addrs, known) ↦ rw known (Distinct-add_addrs out addrs d)
  ])
]

Distinct-add_interfaces :
    (out : List Text) (is : List Interface) → Distinct out → Distinct (add_interfaces out is)
unfolding add_interfaces
Distinct-add_interfaces out [] d = d
Distinct-add_interfaces out (i ∷ is) d =
    Distinct-add_interfaces (add_interface out i) is (Distinct-add_interface out i d)

-- An address that is bound on every interface is hinted at by exactly the texts of the addresses of
-- version 4, but for loopback ones, that the interfaces have which are up and no loopback ones; they
-- are in order, and none occurs twice.
pub listenable_ipv4_hints_lem :
    (bound host port x : Text) (is : List Interface)
    → net_split_host_port bound ≡ some (host, port)
    → is_wildcard host ≡ true
    → (member x (listenable_ipv4_hints bound (some is)) ≡ reached_by x is)
      × Increasing (listenable_ipv4_hints bound (some is))
unfolding listenable_ipv4_hints hints_for Distinct
listenable_ipv4_hints_lem bound host port x is parsed open_to_all =
    rw (parsed, open_to_all)
      (
        member-sort_strings x (add_interfaces [] is)
            ∙ member-add_interfaces x [] is
            ∙ ap (λ b. b || reached_by x is) (member-nil x),
        Increasing-sort_strings (add_interfaces [] is) (Distinct-add_interfaces [] is tt),
      )
