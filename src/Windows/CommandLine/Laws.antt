-- ===== src/Windows/CommandLine/Laws.antt =====
-- A Go program reads back the arguments that `joinArgs` makes a command line of.
use Prim.Native.Nat.{◌/◌, ◌%◌}
use mathlib.Core.List.{append-nil, append_assoc}
use termcp_relay.Prelude.{
  ◌≡◌, refl, sym, ap, ◌∙◌, ℕ, zero, suc, ◌+◌, Bool, true, false, not, ◌&&◌, List, [], ◌∷◌, ◌++◌,
  none, some, if◌then◌else◌, Text, ◌==◌, arith, Bool-cases, inl, inr, ◌⊎◌,
}
use termcp_relay.Windows.CommandLine.{
  is_separator, has_separator, backslashes, escape_from, escape_arg, join_args, Reading, Read,
  read_char, goes_on, ends, argv, argv_from,
}

-- What a command line goes on with behind an argument.
abbrev Follows : Text → Type 0
Follows rest = (rest ≡ []) ⊎ ((more : Text) × (rest ≡ b' ' ∷ more))

abbrev reading : Text → Bool → Bool → ℕ → Reading
reading t quoted left n = record { text = t; quoted = quoted; left = left; slashes = n }

finished :
    (t : Text) (left : Bool) (n : ℕ) (rest : Text)
    → Follows rest
    → argv_from (some (reading t false left n)) rest ≡ (t ++ backslashes n) ∷ argv_from none rest
unfolding argv_from read_char
finished t left n rest (inl over) = rw over refl
finished t left n rest (inr (more, e)) = rw e refl

continued :
    (r r' : Reading) (c : ℕ) (s : Text)
    → read_char r c ≡ goes_on r'
    → argv_from (some r) (c ∷ s) ≡ argv_from (some r') s
unfolding argv_from
continued r r' c s e =
    ap
      (λ (x : Read). elim x [
        | goes_on r'' ↦ argv_from (some r'') s
        | ends a ↦ a ∷ argv_from none s
      ])
      e

read_backslash :
    (n : ℕ) (t : Text) (quoted : Bool)
    → read_char (reading t quoted false n) b'\\' ≡ goes_on (reading t quoted false (suc n))
unfolding read_char
read_backslash n t quoted = refl

argv_from-backslashes :
    (k n : ℕ) (t : Text) (quoted : Bool) (rest : Text)
    → argv_from (some (reading t quoted false n)) (backslashes k ++ rest)
      ≡ argv_from (some (reading t quoted false (k + n))) rest
unfolding backslashes
argv_from-backslashes zero n t quoted rest =
    let same : n ≡ 0 + n = ground arith in
    ap (λ m. argv_from (some (reading t quoted false m)) rest) same
argv_from-backslashes (suc k) n t quoted rest =
    let same : k + suc n ≡ suc k + n = ground arith in
    continued _ _ b'\\' _ (read_backslash n t quoted)
    ∙ argv_from-backslashes k (suc n) t quoted rest
    ∙ ap (λ m. argv_from (some (reading t quoted false m)) rest) same

backslashes-suc : (n : ℕ) (s : Text) → backslashes (suc n) ++ s ≡ backslashes n ++ (b'\\' ∷ s)
unfolding backslashes
backslashes-suc zero s = refl
backslashes-suc (suc n) s = ap (◌∷◌ b'\\') (backslashes-suc n s)

-- A quote ends the argument after an even number of backslashes.
read_quote_even :
    (n : ℕ) (t : Text)
    → read_char (reading t true false (n + n)) b'"'
      ≡ goes_on (reading (t ++ backslashes n) false true 0)
unfolding read_char
read_quote_even n t =
    let half : (n + n) / 2 ≡ n = ground arith in
    let even : (n + n) % 2 ≡ 0 = ground arith in rw (half, even) refl

-- After an odd number it is a part of the argument.
read_quote_odd :
    (n : ℕ) (t : Text) (quoted : Bool)
    → read_char (reading t quoted false (suc (n + n))) b'"'
      ≡ goes_on (reading (t ++ (backslashes n ++ (b'"' ∷ []))) quoted false 0)
unfolding read_char
read_quote_odd n t quoted =
    let half : suc (n + n) / 2 ≡ n = ground arith in
    let odd : suc (n + n) % 2 ≡ 1 = ground arith in rw (half, odd) refl

read_other :
    (c n : ℕ) (t : Text) (quoted : Bool)
    → c == b'\\' ≡ false
    → c == b'"' ≡ false
    → (is_separator c && not quoted) ≡ false
    → read_char (reading t quoted false n) c
      ≡ goes_on (reading (t ++ (backslashes n ++ (c ∷ []))) quoted false 0)
unfolding read_char
read_other c n t quoted slash quote separates = rw (slash, quote, separates) refl

-- Between quotes an argument may have any characters, and outside it has no blank.
abbrev Fits : Bool → Text → Type 0
Fits quoted s = (has_separator s && not quoted) ≡ false

-- The rest of an argument, behind a character that was read.
regroup :
    (t : Text) (n c : ℕ) (s : Text)
    → (t ++ (backslashes n ++ (c ∷ []))) ++ (backslashes 0 ++ s) ≡ t ++ (backslashes n ++ (c ∷ s))
unfolding backslashes
regroup t n c s =
    append_assoc t (backslashes n ++ (c ∷ [])) s
    ∙ ap (λ w. t ++ w) (append_assoc (backslashes n) (c ∷ []) s)

escaped_slash :
    (s rest : Text) (n : ℕ) (quoted : Bool)
    → escape_from n quoted (b'\\' ∷ s) ++ rest ≡ b'\\' ∷ (escape_from (suc n) quoted s ++ rest)
unfolding escape_from
escaped_slash s rest n quoted = refl

escaped_quote :
    (s rest : Text) (n : ℕ) (quoted : Bool)
    → escape_from n quoted (b'"' ∷ s) ++ rest
      ≡ backslashes n ++ (b'\\' ∷ b'"' ∷ (escape_from 0 quoted s ++ rest))
unfolding escape_from
escaped_quote s rest n quoted =
    append_assoc (backslashes n) (b'\\' ∷ b'"' ∷ escape_from 0 quoted s) rest

escaped_other :
    (c : ℕ) (s rest : Text) (n : ℕ) (quoted : Bool)
    → c == b'\\' ≡ false
    → c == b'"' ≡ false
    → escape_from n quoted (c ∷ s) ++ rest ≡ c ∷ (escape_from 0 quoted s ++ rest)
unfolding escape_from
escaped_other c s rest n quoted slash quote = rw (slash, quote) refl

read_escaped :
    (s : Text) (n : ℕ) (t : Text) (quoted : Bool) (rest : Text)
    → Fits quoted s
    → Follows rest
    → argv_from (some (reading t quoted false n)) (escape_from n quoted s ++ rest)
      ≡ (t ++ (backslashes n ++ s)) ∷ argv_from none rest
unfolding escape_from has_separator
read_escaped [] n t false rest fits follows =
    finished t false n rest follows ∙ rw (append-nil (backslashes n)) refl
read_escaped [] n t true rest fits follows = rw append_assoc (
    argv_from-backslashes n n t true (b'"' ∷ rest)
    ∙ continued _ _ b'"' rest (read_quote_even n t)
    ∙ finished (t ++ backslashes n) true 0 rest follows
    ∙ ap (λ w. w ∷ argv_from none rest) (append_assoc t (backslashes n) []))
read_escaped (c ∷ s) n t quoted rest fits follows =
    let later : Fits quoted s = ground (arith, fits) in
    elim (Bool-cases (c == b'\\')) [
      | inl is_slash ↦
          let e : c ≡ b'\\' = ground arith in
          rw (e, escaped_slash s rest n quoted)
            (continued _ _ b'\\' _ (read_backslash n t quoted)
              ∙ read_escaped s (suc n) t quoted rest later follows
              ∙ ap (λ w. (t ++ w) ∷ argv_from none rest) (backslashes-suc n s))
      | inr slash ↦ elim (Bool-cases (c == b'"')) [
        | inl is_quote ↦
            let e : c ≡ b'"' = ground arith in
            rw (e, escaped_quote s rest n quoted)
              (argv_from-backslashes n n t quoted _
                ∙ continued _ _ b'\\' _ (read_backslash (n + n) t quoted)
                ∙ continued _ _ b'"' _ (read_quote_odd n t quoted)
                ∙ read_escaped s 0 _ quoted rest later follows
                ∙ ap (λ w. w ∷ argv_from none rest) (regroup t n b'"' s))
        | inr quote ↦ rw (escaped_other c s rest n quoted slash quote) (
            continued _ _ c _ (read_other c n t quoted slash quote (ground (arith, fits)))
            ∙ read_escaped s 0 _ quoted rest later follows
            ∙ ap (λ w. w ∷ argv_from none rest) (regroup t n c s))
      ]
    ]

-- An argument starts with a character that does not separate.
begins :
    (c : ℕ) (s : Text)
    → is_separator c ≡ false
    → argv_from none (c ∷ s) ≡ argv_from (some (reading [] false false 0)) (c ∷ s)
unfolding argv_from
begins c s e =
    ap
      (λ (b : Bool). if b then argv_from none s else elim (read_char (reading [] false false 0) c) [
        | goes_on r ↦ argv_from (some r) s
        | ends a ↦ a ∷ argv_from none s
      ])
      e

begins_escaped :
    (c : ℕ) (s rest : Text)
    → has_separator (c ∷ s) ≡ false
    → argv_from none (escape_from 0 false (c ∷ s) ++ rest)
      ≡ argv_from (some (reading [] false false 0)) (escape_from 0 false (c ∷ s) ++ rest)
unfolding has_separator backslashes
begins_escaped c s rest plain = elim (Bool-cases (c == b'\\')) [
  | inl is_slash ↦
      let e : c ≡ b'\\' = ground arith in rw (e, escaped_slash s rest 0 false) (begins b'\\' _ refl)
  | inr slash ↦ elim (Bool-cases (c == b'"')) [
    | inl is_quote ↦
        let e : c ≡ b'"' = ground arith in
        rw (e, escaped_quote s rest 0 false) (begins b'\\' _ refl)
    | inr quote ↦
        let clear : is_separator c ≡ false = ground (arith, plain) in
        rw (escaped_other c s rest 0 false slash quote) (begins c _ clear)
  ]
]

opening : read_char (reading [] false false 0) b'"' ≡ goes_on (reading [] true false 0)
unfolding read_char backslashes
opening = refl

read_quoted :
    (s rest : Text)
    → Follows rest
    → argv_from none (b'"' ∷ (escape_from 0 true s ++ rest)) ≡ s ∷ argv_from none rest
unfolding backslashes
read_quoted s rest follows =
    begins b'"' _ refl
    ∙ continued _ _ b'"' _ opening
    ∙ read_escaped s 0 [] true rest (ground arith) follows

read_arg :
    (a rest : Text) → Follows rest → argv_from none (escape_arg a ++ rest) ≡ a ∷ argv_from none rest
unfolding escape_arg backslashes
read_arg [] rest follows = read_quoted [] rest follows
read_arg (c ∷ s) rest follows = elim (Bool-cases (has_separator (c ∷ s))) [
  | inl separates ↦ rw separates (read_quoted (c ∷ s) rest follows)
  | inr plain ↦ rw plain (
      begins_escaped c s rest plain
      ∙ read_escaped (c ∷ s) 0 [] false rest (ground (arith, plain)) follows)
]

-- A Go program that is started with the command line of `joinArgs` reads exactly the arguments that
-- the line was made of, whatever blanks, quotes and backslashes they hold.
pub argv-join_args : (args : List Text) → argv (join_args args) ≡ args
unfolding argv join_args argv_from
argv-join_args [] = refl
argv-join_args (a ∷ []) =
    ap (argv_from none) (sym (append-nil (escape_arg a))) ∙ read_arg a [] (inl refl)
argv-join_args (a ∷ b ∷ args) =
    read_arg a (b' ' ∷ join_args (b ∷ args)) (inr (_, refl))
    ∙ ap (◌∷◌ a) (argv-join_args (b ∷ args))
