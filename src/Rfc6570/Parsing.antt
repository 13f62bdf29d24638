-- ===== src/Rfc6570/Parsing.antt =====
-- What Parse of uritemplate/uritemplate.go accepts.
use fastmcp.Prelude.{
  ℕ, zero, suc, ◌≤◌, Text, length, length-append, ◌++◌, List, [], ◌∷◌, Option, Result, done, failed,
  All, Bool-cases, Option-cases, inl, inr, ◌≡◌, ◌≢◌, refl, sym, ap, ◌∙◌, arith, ◌==◌, ==_iff,
}
use fastmcp.Uri.{cut}
use fastmcp.Uri.Tokens.{joined-cut}
use fastmcp.Rfc6570.{
  TemplateExpr, TemplatePart, literal, expression, parse_expr, push_byte, then_byte, then_expr,
  parse_from, parse,
}

-- neither brace
abbrev pub IsFlat : Text → Type 0
IsFlat = All (λ c. (c ≢ b'{') × (c ≢ b'}'))

module _ (atoi : Text → Option ℕ) where
  -- The parts spell the text: each literal as it is, with no brace, and each expression a text in braces
  -- that parses to it.
  abbrev pub Spells : List TemplatePart → Text → Type 0
  Spells [] s = s ≡ []
  Spells (literal t ∷ ps) s = (rest : Text) × (s ≡ t ++ rest) × IsFlat t × Spells ps rest
  Spells (expression e ∷ ps) s =
      (body : Text) × (rest : Text) × (s ≡ b'{' ∷ (body ++ b'}' ∷ rest))
      × (parse_expr atoi body ≡ done e)
      × Spells ps rest

  push_byte-Spells :
      (c : ℕ) (s : Text) (ps : List TemplatePart)
      → (c ≢ b'{') × (c ≢ b'}')
      → Spells ps s
      → Spells (push_byte atoi c ps) (c ∷ s)
  push_byte-Spells c s [] h sp = (s, refl, (h, tt), sp)
  push_byte-Spells c s (literal t ∷ ps) h (rest, at, flat, sp) =
      (rest, ap (λ x. c ∷ x) at, (h, flat), sp)
  push_byte-Spells c s (expression e ∷ ps) h sp = (s, refl, (h, tt), sp)

  then_byte-done :
      (c : ℕ) (r : Result (List TemplatePart)) (ps : List TemplatePart)
      → then_byte atoi c r ≡ done ps
      → (qs : List TemplatePart) × (r ≡ done qs) × (push_byte atoi c qs ≡ ps)
  then_byte-done c (failed m) ps h = let clash : ⊥ = cc h in absurd clash
  then_byte-done c (done qs) ps h = (qs, refl, cc h)

  then_expr-done :
      (e : Result TemplateExpr) (r : Result (List TemplatePart)) (ps : List TemplatePart)
      → then_expr atoi e r ≡ done ps
      → (x : TemplateExpr) × (qs : List TemplatePart) × (e ≡ done x)
        × (r ≡ done qs)
        × (expression x ∷ qs ≡ ps)
  then_expr-done (failed m) r ps h = let clash : ⊥ = cc h in absurd clash
  then_expr-done (done x) (failed m) ps h = let clash : ⊥ = cc h in absurd clash
  then_expr-done (done x) (done qs) ps h = (x, qs, refl, refl, cc h)

  parse_from-Spells :
      (n : ℕ) (s : Text) (ps : List TemplatePart)
      → length s ≤ n
      → parse_from atoi n s ≡ done ps
      → Spells ps s
  unfolding parse_from
  parse_from-Spells zero [] ps fits h = let same : [] ≡ ps = cc h in rw (← same) refl
  parse_from-Spells zero (c ∷ s) ps fits h = absurd (omega arith)
  parse_from-Spells (suc n) [] ps fits h = let same : [] ≡ ps = cc h in rw (← same) refl
  parse_from-Spells (suc n) (c ∷ s) ps fits h = elim (Bool-cases (c == b'{')) [
    | inl e ↦ elim (Option-cases (cut b'}' s)) [
      | inl m ↦ let clash : ⊥ = cc (rw (m, parse_from) at (rw (e, parse_from) at h)) in absurd clash
      | inr ((body, rest), m) ↦
          let whole : body ++ b'}' ∷ rest ≡ s = rw m at (joined-cut b'}' s) in
          let longer = ap length whole in
          let (x, qs, parsed, later, same) =
            then_expr-done (parse_expr atoi body) (parse_from atoi n rest) ps
              (rw m at (rw (e, parse_from) at h)) in
          rw (← same) (
            body,
            rest,
            ap (λ t. c ∷ t) (sym whole) ∙ ap (λ d. d ∷ (body ++ b'}' ∷ rest)) ((==_iff c b'{').0 e),
            parsed,
            parse_from-Spells n rest qs (omega (arith, length-append body (b'}' ∷ rest))) later,
          )
    ]
    | inr e ↦ elim (Bool-cases (c == b'}')) [
      | inl m ↦ let clash : ⊥ = cc (rw m at (rw (e, parse_from) at h)) in absurd clash
      | inr m ↦
          let (qs, later, same) =
            then_byte-done c (parse_from atoi n s) ps (rw m at (rw (e, parse_from) at h)) in
          rw (← same) (
            push_byte-Spells c s qs (ground arith, ground arith)
              (parse_from-Spells n s qs (omega arith) later))
    ]
  ]

  -- What Parse accepts is spelled by the parts that it makes.
  pub parse-Spells :
      (raw : Text) (ps : List TemplatePart) → parse atoi raw ≡ done ps → Spells ps raw
  unfolding parse
  parse-Spells raw ps h = parse_from-Spells (length raw) raw ps (omega arith) h
