-- ===== src/Rfc6570/Match.antt =====
-- uritemplate/uritemplate.go: matching a URI. The regular expression that Regexp makes is the list of its
-- pieces, literal text and lazy groups, matched as Go's regexp does: leftmost first, each group taking the
-- shortest run that lets the rest match. Regexp goes by runes: a group ends where a rune starts. The URI and the
-- template are valid UTF-8 (regexp.Compile refuses another's literals), and an expression has a variable, as Parse
-- sees to.
pub mod Captures
pub mod Parts
use fastmcp.Prelude.{
  on_rune, ℕ, Text, txt, has_prefix, is_some, length, drop, Bool, true, false, not, ◌&&◌, ◌||◌,
  ◌++◌, List, [], ◌∷◌, Option, none, some, All, Option-cases, Bool-cases, inl, inr, ◌≡◌, ◌≢◌, refl,
  sym, ap, ◌∙◌, arith, ◌==◌, ==_iff, if◌then◌else◌,
}
use fastmcp.Prelude.Dict.{Dict, put}
use fastmcp.Rfc6570.{TemplateVar, TemplateExpr, TemplatePart, literal, expression, ut_decode}

pub data MatchPiece : Type 0 where
  fixed : Text → MatchPiece
  -- `(.+?)`, or without a slash `([^/]+?)`
  lazy : Bool → MatchPiece

abbrev pub add_pieces : List MatchPiece → Option (List MatchPiece) → Option (List MatchPiece)
add_pieces ps none = none
add_pieces ps (some qs) = some (ps ++ qs)

-- the pieces of an expression's variables, with the separator before each but the first
unfoldable pub var_pieces : Bool → Text → Text → List TemplateVar → Option (List MatchPiece)
var_pieces any before sep [] = some []
var_pieces any before sep (v ∷ vs) =
    let rest = var_pieces any sep sep vs in
    if v.explode || is_some v.prefix then none else add_pieces (fixed before ∷ lazy any ∷ []) rest

-- of an operator: none, `+` or `/`
unfoldable pub expr_pieces : TemplateExpr → Option (List MatchPiece)
unfolding var_pieces
expr_pieces e =
    if e.op == 0
    then var_pieces false [] (txt ",") e.vars
    else if e.op == b'+'
    then var_pieces true [] (txt ",") e.vars
    else if e.op == b'/'
    then var_pieces false (txt "/") (txt "/") e.vars
    else none

abbrev pub join_pieces :
    Option (List MatchPiece) → Option (List MatchPiece) → Option (List MatchPiece)
join_pieces none rest = none
join_pieces (some ps) rest = add_pieces ps rest

-- Regexp, or an error
unfoldable pub pieces : List TemplatePart → Option (List MatchPiece)
unfolding expr_pieces
pieces [] = some []
pieces (literal t ∷ ps) = add_pieces (fixed t ∷ []) (pieces ps)
pieces (expression e ∷ ps) = join_pieces (expr_pieces e) (pieces ps)

abbrev pub names_of : List TemplateVar → List Text
names_of [] = []
names_of (v ∷ vs) = v.name ∷ names_of vs

unfoldable pub group_names : List TemplatePart → List Text
group_names [] = []
group_names (literal t ∷ ps) = group_names ps
group_names (expression e ∷ ps) = names_of e.vars ++ group_names ps

-- `.` is all but a line feed
abbrev pub in_class : Bool → ℕ → Bool
in_class true c = not (c == 10)
in_class false c = not (c == b'/')

abbrev pub add_capture : Text → Option (List Text) → Option (List Text)
add_capture t none = none
add_capture t (some caps) = some (t ∷ caps)

-- one lazy group, with the text that it has so far: the rest is tried first
unfoldable pub try_lazy : Bool → (Text → Option (List Text)) → Text → Text → Option (List Text)
try_lazy any rest taken [] = none
try_lazy any rest taken (c ∷ s) = elim (in_class any c) [
  | false ↦ none
  | true ↦ elim (rest s) [
    | some caps ↦ some ((taken ++ c ∷ []) ∷ caps)
    | none ↦ try_lazy any rest (taken ++ c ∷ []) s
  ]
]

-- FindStringSubmatch of the anchored expression, without the whole match
unfoldable pub submatch : List MatchPiece → Text → Option (List Text)
unfolding try_lazy
submatch [] [] = some []
submatch [] (c ∷ s) = none
submatch (fixed t ∷ ps) s = if has_prefix s t then submatch ps (drop (length t) s) else none
submatch (lazy any ∷ ps) s = try_lazy any (on_rune (submatch ps)) [] s

abbrev pub decoded_or_raw : Text → Option Text → Text
decoded_or_raw s none = s
decoded_or_raw s (some t) = t

abbrev pub assign_decoded : List Text → List Text → Dict Text → Dict Text
assign_decoded [] caps out = out
assign_decoded (n ∷ ns) [] out = out
assign_decoded (n ∷ ns) (cap_text ∷ caps) out =
    assign_decoded ns caps (put n (decoded_or_raw cap_text (ut_decode cap_text)) out)

-- Template.Match
unfoldable pub ut_match : List TemplatePart → Text → Option (Dict Text)
unfolding pieces submatch group_names ut_decode
ut_match ps uri = elim (pieces ps) [
  | none ↦ none
  | some qs ↦ elim (submatch qs uri) [
    | none ↦ none
    | some caps ↦ some (assign_decoded (group_names ps) caps [])
  ]
]
