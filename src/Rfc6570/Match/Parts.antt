-- ===== src/Rfc6570/Match/Parts.antt =====
-- Which URIs Match of uritemplate/uritemplate.go accepts, from the parts of the template.
use fastmcp.Prelude.{
  ℕ, Text, txt, starts_rune, is_some, Bool, true, false, ◌||◌, ◌==◌, ==_iff, ◌++◌, List, [], ◌∷◌,
  Option, none, some, All, Option-cases, Bool-cases, inl, inr, ◌≡◌, ◌≢◌, ◌↔◌, ◌⊎◌, refl, sym, ap,
  ◌∙◌, arith,
}
use fastmcp.Rfc6570.{TemplateVar, TemplateExpr, TemplatePart, literal, expression}
use fastmcp.Rfc6570.Match.{
  MatchPiece, fixed, lazy, in_class, add_pieces, var_pieces, expr_pieces, join_pieces, pieces,
  submatch, ut_match,
}
use fastmcp.Rfc6570.Match.Captures.{Reads, submatch_iff}

-- A text that a variable takes: not empty, of whole runes, and without the excluded character.
abbrev pub Takes : ℕ → Text → Text → Type 0
Takes excluded value rest = (value ≢ []) × All (λ c. c ≢ excluded) value × (starts_rune rest ≡ true)

-- The text is one that each variable takes, in order, behind `before` or, but for the first, behind the
-- separator, and then goes on as it may. No variable has a modifier.
abbrev pub ReadsVars : ℕ → Text → Text → List TemplateVar → (Text → Type 0) → Text → Type 0
ReadsVars excluded before sep [] follows s = follows s
ReadsVars excluded before sep (v ∷ vs) follows s =
    (v.explode ≡ false)
    × (v.prefix ≡ none)
    × ((value : Text) × (rest : Text) × (s ≡ before ++ (value ++ rest))
        × Takes excluded value rest
        × ReadsVars excluded sep sep vs follows rest)

-- `{a,b}` takes values without a slash between commas, `{+a,b}` any but a line feed, and `{/a,b}` values
-- without a slash, each behind one.
abbrev pub ReadsExpr : TemplateExpr → (Text → Type 0) → Text → Type 0
ReadsExpr e follows s =
    ((e.op ≡ 0) × ReadsVars b'/' [] (txt ",") e.vars follows s)
    ⊎ (((e.op ≡ b'+') × ReadsVars 10 [] (txt ",") e.vars follows s)
        ⊎ ((e.op ≡ b'/') × ReadsVars b'/' (txt "/") (txt "/") e.vars follows s))

abbrev pub ReadsParts : List TemplatePart → Text → Type 0
ReadsParts [] s = s ≡ []
ReadsParts (literal t ∷ ps) s = (rest : Text) × (s ≡ t ++ rest) × ReadsParts ps rest
ReadsParts (expression e ∷ ps) s = ReadsExpr e (ReadsParts ps) s

-- the same of an expression that may not exist
abbrev ReadsPieces : Option (List MatchPiece) → Text → Type 0
ReadsPieces none s = ⊥
ReadsPieces (some ps) s = (caps : List Text) × Reads ps caps s

abbrev outside : Bool → ℕ
outside true = 10
outside false = b'/'

in_class_iff : (any : Bool) (c : ℕ) → (in_class any c ≡ true) ↔ (c ≢ outside any)
in_class_iff true c = grind (arith, ==_iff c 10)
in_class_iff false c = grind (arith, ==_iff c 47)

all_in_class_iff :
    (any : Bool) (t : Text) → All (λ c. in_class any c ≡ true) t ↔ All (λ c. c ≢ outside any) t
all_in_class_iff any [] = (λ h. h, λ h. h)
all_in_class_iff any (c ∷ t) =
    let here = in_class_iff any c in
    let rest = all_in_class_iff any t in
    (λ h. (here.0 h.0, rest.0 h.1), λ h. (here.1 h.0, rest.1 h.1))

module _ (any : Bool) (before : Text) where
  -- a text that the variable takes behind `before`, and what follows it
  abbrev Splits : Text → (Text → Type 0) → Type 0
  Splits s follows =
      (value : Text) × (rest : Text) × (s ≡ before ++ (value ++ rest))
      × Takes (outside any) value rest
      × follows rest

  captured_split :
      (ps : List MatchPiece) (caps : List Text) (s : Text)
      → Reads (fixed before ∷ lazy any ∷ ps) caps s
      → Splits s (ReadsPieces (some ps))
  captured_split ps [] s (r, e, h) = absurd h
  captured_split ps (t ∷ caps) s (r, e, (rest, at, full, ok, whole, h)) = (
    t,
    rest,
    e ∙ ap (λ x. before ++ x) at,
    (full, (all_in_class_iff any t).0 ok, whole),
    (caps, h),
  )

  -- one variable's pieces before others
  var_then :
      (more : Option (List MatchPiece)) (s : Text)
      → ReadsPieces (add_pieces (fixed before ∷ lazy any ∷ []) more) s ↔ Splits s (ReadsPieces more)
  var_then none s = (λ h. absurd h, λ (value, rest, e, t, h). h)
  var_then (some ps) s = (
    λ (caps, h). captured_split ps caps s h,
    λ (value, rest, e, (full, ok, whole), (caps, h)). (
      value ∷ caps,
      (value ++ rest, e, (rest, refl, full, (all_in_class_iff any value).1 ok, whole, h)),
    ),
  )

joined_add :
    (qs : List MatchPiece) (rest more : Option (List MatchPiece)) (f l : MatchPiece)
    → join_pieces (add_pieces (f ∷ l ∷ []) rest) more
      ≡ add_pieces (f ∷ l ∷ []) (join_pieces rest more)
joined_add qs none more f l = refl
joined_add qs (some ps) none f l = refl
joined_add qs (some ps) (some ms) f l = refl

joined_nothing :
    (more : Option (List MatchPiece)) (s : Text)
    → ReadsPieces (join_pieces (some []) more) s ↔ ReadsPieces more s
joined_nothing none s = (λ h. h, λ h. h)
joined_nothing (some ps) s = (λ h. h, λ h. h)

no_modifier :
    (v : TemplateVar) (o : Option ℕ)
    → v.prefix ≡ o
    → (v.explode || is_some o ≡ true → ¬ ((v.explode ≡ false) × (v.prefix ≡ none)))
      × (v.explode || is_some o ≡ false → (v.explode ≡ false) × (v.prefix ≡ none))
no_modifier v none e = (λ h k. ground (arith, h, k.0), λ h. (ground (arith, h), e))
no_modifier v (some n) e = (λ h k. cc (sym e ∙ k.1), λ h. let c : ⊥ = ground (arith, h) in absurd c)

vars_then :
    (any : Bool) (before sep : Text) (vs : List TemplateVar) (more : Option (List MatchPiece))
    (follows : Text → Type 0)
    → ((s : Text) → ReadsPieces more s ↔ follows s)
    → (s : Text)
    → ReadsPieces (join_pieces (var_pieces any before sep vs) more) s
      ↔ ReadsVars (outside any) before sep vs follows s
unfolding var_pieces
vars_then any before sep [] more follows k s =
    let n = joined_nothing more s in (λ h. (k s).0 (n.0 h), λ h. n.1 ((k s).1 h))
vars_then any before sep (v ∷ vs) more follows k s =
    elim (Bool-cases (v.explode || is_some v.prefix)) [
      | inl e ↦ rw e (λ h. absurd h, λ h. absurd ((no_modifier v v.prefix refl).0 e (h.0, h.1)))
      | inr e ↦
          let plain = (no_modifier v v.prefix refl).1 e in
          let later = vars_then any sep sep vs more follows k in
          let both = var_then any before (join_pieces (var_pieces any sep sep vs) more) s in
          rw (e, joined_add [] (var_pieces any sep sep vs) more (fixed before) (lazy any))
            (
              λ h.
                  let (value, rest, at, t, r) = both.0 h in
                  (plain.0, plain.1, (value, rest, at, t, (later rest).0 r)),
              λ (a, b, (value, rest, at, t, r)). both.1 (value, rest, at, t, (later rest).1 r),
            )
    ]

-- one of three, when each of the others needs another operator
expr_then :
    (e : TemplateExpr) (more : Option (List MatchPiece)) (follows : Text → Type 0)
    → ((s : Text) → ReadsPieces more s ↔ follows s)
    → (s : Text) → ReadsPieces (join_pieces (expr_pieces e) more) s ↔ ReadsExpr e follows s
unfolding expr_pieces
expr_then e more follows k s = elim (Bool-cases (e.op == 0)) [
  | inl a ↦
      let op = (==_iff e.op 0).0 a in
      let v = vars_then false [] (txt ",") e.vars more follows k s in
      rw (a, expr_pieces)
        (
          λ h. inl (op, v.0 h),
          λ r. elim r [
            | inl (o, x) ↦ v.1 x
            | inr (inl (o, x)) ↦ let c : ⊥ = omega arith in absurd c
            | inr (inr (o, x)) ↦ let c : ⊥ = omega arith in absurd c
          ],
        )
  | inr a ↦ elim (Bool-cases (e.op == b'+')) [
    | inl b ↦
        let op = (==_iff e.op b'+').0 b in
        let v = vars_then true [] (txt ",") e.vars more follows k s in
        rw (a, expr_pieces)
          (rw b (
            λ h. inr (inl (op, v.0 h)),
            λ r. elim r [
              | inl (o, x) ↦ let c : ⊥ = omega arith in absurd c
              | inr (inl (o, x)) ↦ v.1 x
              | inr (inr (o, x)) ↦ let c : ⊥ = omega arith in absurd c
            ],
          ))
    | inr b ↦ elim (Bool-cases (e.op == b'/')) [
      | inl d ↦
          let op = (==_iff e.op b'/').0 d in
          let v = vars_then false (txt "/") (txt "/") e.vars more follows k s in
          rw (a, expr_pieces)
            (rw (b, d)
              (
                λ h. inr (inr (op, v.0 h)),
                λ r. elim r [
                  | inl (o, x) ↦ let c : ⊥ = omega arith in absurd c
                  | inr (inl (o, x)) ↦ let c : ⊥ = omega arith in absurd c
                  | inr (inr (o, x)) ↦ v.1 x
                ],
              ))
      | inr d ↦
          rw (a, expr_pieces)
            (rw (b, d)
              (
                λ h. absurd h,
                λ r. elim r [
                  | inl (o, x) ↦ let c : ⊥ = cc ((==_iff e.op 0).1 o, a) in absurd c
                  | inr (inl (o, x)) ↦ let c : ⊥ = cc ((==_iff e.op b'+').1 o, b) in absurd c
                  | inr (inr (o, x)) ↦ let c : ⊥ = cc ((==_iff e.op b'/').1 o, d) in absurd c
                ],
              ))
    ]
  ]
]

literal_then :
    (t : Text) (more : Option (List MatchPiece)) (s : Text)
    → ReadsPieces (add_pieces (fixed t ∷ []) more) s
      ↔ ((rest : Text) × (s ≡ t ++ rest) × ReadsPieces more rest)
literal_then t none s = (λ h. absurd h, λ (rest, e, h). h)
literal_then t (some ps) s =
    (λ (caps, (rest, e, h)). (rest, e, (caps, h)), λ (rest, e, (caps, h)). (caps, (rest, e, h)))

nothing_left : (caps : List Text) (s : Text) → Reads [] caps s → s ≡ []
nothing_left [] s h = h
nothing_left (t ∷ caps) s h = absurd h

parts_then : (ps : List TemplatePart) (s : Text) → ReadsPieces (pieces ps) s ↔ ReadsParts ps s
unfolding pieces
parts_then [] s = (λ (caps, h). nothing_left caps s h, λ h. ([], h))
parts_then (literal t ∷ ps) s =
    let both = literal_then t (pieces ps) s in
    (
      λ h. let (rest, e, r) = both.0 h in (rest, e, (parts_then ps rest).0 r),
      λ (rest, e, r). both.1 (rest, e, (parts_then ps rest).1 r),
    )
parts_then (expression e ∷ ps) s = expr_then e (pieces ps) (ReadsParts ps) (parts_then ps) s

-- A URI matches a template exactly if it can be read as the template's parts, one after the other: a literal
-- as itself, an expression without an operator as texts without a slash between commas, one with `+` as texts
-- without a line feed between commas, and one with `/` as texts without a slash, each behind a slash. No text
-- is empty or ends inside a rune. A template with another operator or with a modifier matches nothing.
pub ut_match_iff :
    (ps : List TemplatePart) (uri : Text) → (ut_match ps uri ≢ none) ↔ ReadsParts ps uri
unfolding ut_match
ut_match_iff ps uri =
    let both = parts_then ps uri in
    elim (Option-cases (pieces ps)) [
      | inl e ↦ rw (e, ut_match) (λ h. absurd (h refl), λ r. absurd (rw e at (both.1 r)))
      | inr (qs, e) ↦
          let found = submatch_iff qs uri in
          elim (Option-cases (submatch qs uri)) [
            | inl m ↦
                rw (e, ut_match)
                  (rw m (λ h. absurd (h refl), λ r. absurd (found.1 (rw e at (both.1 r)) m)))
            | inr (caps, m) ↦
                rw (e, ut_match) (rw m (λ h. both.0 (rw e (found.0 (λ x. cc x))), λ r x. cc x))
          ]
    ]
