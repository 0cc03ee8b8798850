-- ===== src/Env/Expand/Laws.antt =====
-- `expandPercent` against an inductive description of the expansion.
use mathlib.Core.List.{append_assoc}
use termcp_relay.Prelude.{
  ◌⊎◌, ℕ, suc, zero, ◌≤◌, ◌<◌, ◌≡◌, ◌≢◌, ◌↔◌, refl, sym, ap, ◌∙◌, subst, inl, inr, false, [], ◌∷◌,
  ◌++◌, none, some, arith, ◌==◌, Text, length, length-append, any, Bool-cases, Option-cases,
}
use termcp_relay.Strings.{Unicode, cut, IsCut, cut-IsCut, cut-append, cut-none, Lacks}
use termcp_relay.Env.Lookup.{EnvLookup, get}
use termcp_relay.Env.Expand.{percent, reference, expand_loop, expand_percent}

module _ ⦃u : Unicode⦄ (table : EnvLookup) where
  -- What stands for the name between two percent signs: one that is not empty and known is replaced by
  -- its value, and any other reference is left as it is.
  pub data Stands (name : Text) : Text → Type 0 where
    value_of : {value : Text} → name ≢ [] → get table name ≡ some value → Stands name value
    kept :
        {out : Text}
        → (name ≡ []) ⊎ (get table name ≡ none)
        → out ≡ percent ∷ (name ++ (percent ∷ []))
        → Stands name out

  reference-Stands : (name : Text) → Stands name (reference table name)
  unfolding reference
  reference-Stands [] = kept (inl refl) refl
  reference-Stands (c ∷ name) = elim (Option-cases (get table (c ∷ name))) [
    | inl unknown ↦ rw (unknown, reference) (kept (inr unknown) refl)
    | inr (value, known) ↦ rw (known, reference) (value_of (λ e. cc) known)
  ]

  Stands-reference : (name out : Text) → Stands name out → out ≡ reference table name
  unfolding reference
  Stands-reference [] out (value_of full known) = absurd (full refl)
  Stands-reference [] out (kept why e) = e
  Stands-reference (c ∷ name) out (value_of full known) = rw (known, reference) refl
  Stands-reference (c ∷ name) out (kept (inl empty) e) = cc
  Stands-reference (c ∷ name) out (kept (inr unknown) e) = rw (unknown, reference) e

  -- The expansion of a text, read from the left: characters other than the percent sign stand for
  -- themselves, a percent sign with none behind it leaves the rest as it is, and the name between
  -- two percent signs is replaced; what is put in its place is not read again.
  pub data Expands : Text → Text → Type 0 where
    end : Expands [] []
    plain : {s t : Text} (c : ℕ) → c ≢ percent → Expands s t → Expands (c ∷ s) (c ∷ t)
    unterminated : {s : Text} → Lacks percent s → Expands (percent ∷ s) (percent ∷ s)
    name_of :
        {s rest t out put : Text} (name : Text)
        → Lacks percent name
        → s ≡ name ++ (percent ∷ rest)
        → Stands name put
        → out ≡ put ++ t
        → Expands rest t
        → Expands (percent ∷ s) out

  name_of_reference :
      {s rest t out : Text} (name : Text)
      → Lacks percent name
      → s ≡ name ++ (percent ∷ rest)
      → out ≡ reference table name ++ t
      → Expands rest t
      → Expands (percent ∷ s) out
  name_of_reference name n e f x = name_of name n e (reference-Stands name) f x

  cut-length : (s name rest : Text) → s ≡ name ++ (percent ∷ rest) → length rest < length s
  cut-length s name rest e = omega (arith, ap length e, length-append {0} name (percent ∷ rest))

  cut_of_parts :
      (s name rest : Text)
      → Lacks percent name
      → s ≡ name ++ (percent ∷ rest)
      → cut percent s ≡ some (name, rest)
  cut_of_parts s name rest h e = rw e (cut-append percent name rest h)

  cut_of_Lacks : (s : Text) → Lacks percent s → cut percent s ≡ none
  unfolding cut
  cut_of_Lacks [] h = refl
  cut_of_Lacks (c ∷ s) h = ground (arith, h.0, cut_of_Lacks s h.1)

  loop_plain :
      (rounds c : ℕ) (s t : Text)
      → c ≢ percent
      → expand_loop table rounds s ≡ some t
      → expand_loop table (suc rounds) (c ∷ s) ≡ some (c ∷ t)
  unfolding expand_loop
  loop_plain rounds c s t h e =
      let other : (c == percent) ≡ false = ground arith in rw (other, e, expand_loop)

  loop_unterminated :
      (rounds : ℕ) (s : Text)
      → cut percent s ≡ none
      → expand_loop table (suc rounds) (percent ∷ s) ≡ some (percent ∷ s)
  unfolding expand_loop
  loop_unterminated rounds s e = ground arith

  loop_name_of :
      (rounds : ℕ) (s name rest t : Text)
      → cut percent s ≡ some (name, rest)
      → expand_loop table rounds rest ≡ some t
      → expand_loop table (suc rounds) (percent ∷ s) ≡ some (reference table name ++ t)
  unfolding expand_loop
  loop_name_of rounds s name rest t e f = ground arith

  -- With a round for each character the loop ends, and it writes the expansion.
  expand_loop_of_Expands :
      {s t : Text}
      → Expands s t
      → (rounds : ℕ) → length s ≤ rounds
      → expand_loop table rounds s ≡ some t
  expand_loop_of_Expands end rounds h = unfold expand_loop in refl
  expand_loop_of_Expands (plain c n x) zero h = absurd (omega arith)
  expand_loop_of_Expands (unterminated n) zero h = absurd (omega arith)
  expand_loop_of_Expands (name_of name n e put f x) zero h = absurd (omega arith)
  expand_loop_of_Expands (plain {s} {t} c n x) (suc rounds) h =
      loop_plain rounds c s t n (expand_loop_of_Expands x rounds (omega arith))
  expand_loop_of_Expands (unterminated {s} n) (suc rounds) h =
      loop_unterminated rounds s (cut_of_Lacks s n)
  expand_loop_of_Expands (name_of {s} {rest} {t} name n e stands f x) (suc rounds) h =
      rw (f, Stands-reference name _ stands)
        (loop_name_of rounds s name rest t (cut_of_parts s name rest n e)
          (expand_loop_of_Expands x rounds (omega (arith, cut-length s name rest e))))

  -- Every text has an expansion; the number bounds its length.
  expansion : (bound : ℕ) (s : Text) → length s ≤ bound → (t : Text) × Expands s t
  expansion bound [] h = ([], end)
  expansion zero (c ∷ s) h = absurd (omega arith)
  expansion (suc bound) (c ∷ s) h = elim (Bool-cases (c == percent)) [
    | inr other ↦ let (t, x) = expansion bound s (omega arith) in (c ∷ t, plain c (ground arith) x)
    | inl same ↦
        let start : percent ≡ c = ground arith in
        subst (λ d. (t : Text) × Expands (d ∷ s) t) start
          (elim (Option-cases (cut percent s)) [
            | inl gone ↦ (percent ∷ s, unterminated (cut-none percent s gone))
            | inr ((name, rest), found) ↦
                let parts : IsCut percent s (some (name, rest)) =
                  rw found at (cut-IsCut percent s) in
                let shorter : length rest ≤ bound = omega (arith, cut-length s name rest parts.0) in
                let (t, x) = expansion bound rest shorter in
                (reference table name ++ t, name_of_reference name parts.1 parts.0 refl x)
          ])
  ]

  any-Lacks : (s : Text) → any (λ c. c == percent) s ≡ false → Lacks percent s
  any-Lacks [] h = tt
  any-Lacks (c ∷ s) h = (ground arith, any-Lacks s (ground arith))

  Expands-of_Lacks : {s t : Text} → Expands s t → Lacks percent s → s ≡ t
  Expands-of_Lacks end h = refl
  Expands-of_Lacks (plain c n x) h = ap (◌∷◌ c) (Expands-of_Lacks x h.1)
  Expands-of_Lacks (unterminated n) h = refl
  Expands-of_Lacks (name_of name n e put f x) h = absurd (h.0 refl)

  -- The code writes exactly the expansion of its input, whatever the input and the table are.
  pub expand_percent-Expands : (s t : Text) → (expand_percent table s ≡ t) ↔ Expands s t
  expand_percent-Expands s t = (
    λ e.
        let (r, x) = expansion (length s) s (omega arith) in
        subst (Expands s) (sym (complete s r x) ∙ e) x,
    complete s t,
  )
    where
      complete : (s t : Text) → Expands s t → expand_percent table s ≡ t
      complete s t x =
          unfold expand_percent in
          elim (Bool-cases (any (λ c. c == percent) s)) [
            | inl some_percent ↦
                rw (some_percent, expand_loop_of_Expands x (length s) (omega arith))
            | inr no_percent ↦ rw no_percent (Expands-of_Lacks x (any-Lacks s no_percent))
          ]

  reference_known :
      (c : ℕ) (name value : Text)
      → get table (c ∷ name) ≡ some value
      → reference table (c ∷ name) ≡ value
  unfolding reference
  reference_known c name value known = rw (known, reference)

  reference_unknown :
      (name t : Text)
      → get table name ≡ none
      → reference table name ++ t ≡ percent ∷ (name ++ (percent ∷ t))
  unfolding reference
  reference_unknown [] t unknown = refl
  reference_unknown (c ∷ name) t unknown =
      rw (unknown, reference) (ap (λ s. percent ∷ c ∷ s) (append_assoc name (percent ∷ []) t))

  -- One pass: the value that is put for a known name is not expanded again, whatever percent signs
  -- it holds, and the rest of the text is expanded after it.
  pub expand_percent_known :
      (c : ℕ) (name value rest : Text)
      → Lacks percent (c ∷ name)
      → get table (c ∷ name) ≡ some value
      → expand_percent table (percent ∷ c ∷ (name ++ (percent ∷ rest)))
        ≡ value ++ expand_percent table rest
  expand_percent_known c name value rest h known =
      let t = expand_percent table rest in
      (expand_percent-Expands _ _).1 (
        name_of_reference {t = t} (c ∷ name) h refl
          (ap (λ v. v ++ t) (sym (reference_known c name value known)))
          ((expand_percent-Expands rest t).0 refl))

  verbatim : {s t : Text} → ((name : Text) → get table name ≡ none) → Expands s t → s ≡ t
  verbatim unknown end = refl
  verbatim unknown (plain c n x) = ap (◌∷◌ c) (verbatim unknown x)
  verbatim unknown (unterminated n) = refl
  verbatim unknown (name_of {s} {rest} {t} {out} name n e stands f x) =
      let same : rest ≡ t = verbatim unknown x in
      let read : out ≡ percent ∷ (name ++ (percent ∷ t)) =
        f
        ∙ ap (λ p. p ++ t) (Stands-reference name _ stands)
        ∙ reference_unknown name t (unknown name) in
      ap (◌∷◌ percent) (e ∙ ap (λ r. name ++ (percent ∷ r)) same) ∙ sym read

  -- With no variable in the table a text is left verbatim, its references included.
  pub expand_percent_unknown :
      ((name : Text) → get table name ≡ none) → (s : Text) → expand_percent table s ≡ s
  expand_percent_unknown unknown s =
      sym (verbatim unknown ((expand_percent-Expands s (expand_percent table s)).0 refl))
