-- ===== src/Rfc6570.antt =====
-- uritemplate/uritemplate.go: templates of RFC 6570, their parsing and their encoding. strconv.Atoi is a
-- parameter, `none` for an error or a negative number; error texts keep their fixed part.
pub mod Encoding
pub mod Parsing
pub mod Expand
pub mod Match
use fastmcp.Prelude.{
  ℕ, zero, suc, ◌/◌, ◌%◌, Text, txt, text_eq, length, is_empty, Bool, true, false, not, ◌&&◌, ◌||◌,
  ◌++◌, List, [], ◌∷◌, Option, none, some, Result, done, failed, ◌==◌, if◌then◌else◌,
}
use mathlib.Core.List.{reverse}
use fastmcp.Server.Registry.{mem_text}
use fastmcp.Uri.{fm_unreserved, hex_digit, is_hex, unescape, cut, split}

-- utVar; a prefix of -1 is `none`
pub record TemplateVar : Type 0 where
  pub name : Text
  pub explode : Bool
  pub prefix : Option ℕ

-- utExpr; the operator is 0 for a simple expression
pub record TemplateExpr : Type 0 where
  pub op : ℕ
  pub vars : List TemplateVar

pub data TemplatePart : Type 0 where
  literal : Text → TemplatePart
  expression : TemplateExpr → TemplatePart

-- utOpCfg; `reserved` is for "U+R"
pub record OpConfig : Type 0 where
  pub first : Text
  pub sep : Text
  pub named : Bool
  pub if_empty : Text
  pub reserved : Bool

abbrev pub op_config : Text → Text → Bool → Text → Bool → OpConfig
op_config first sep named if_empty reserved = record {
  first = first;
  sep = sep;
  named = named;
  if_empty = if_empty;
  reserved = reserved;
}

unfoldable pub ut_operator : ℕ → OpConfig
ut_operator op =
    if op == b'+'
    then op_config [] (txt ",") false [] true
    else if op == b'#'
    then op_config (txt "#") (txt ",") false [] true
    else if op == b'.'
    then op_config (txt ".") (txt ".") false [] false
    else if op == b'/'
    then op_config (txt "/") (txt "/") false [] false
    else if op == b';'
    then op_config (txt ";") (txt ";") true [] false
    else if op == b'?'
    then op_config (txt "?") (txt "&") true (txt "=") false
    else if op == b'&'
    then op_config (txt "&") (txt "&") true (txt "=") false
    else op_config [] (txt ",") false [] false

-- utUnreserved, utReserved, utHex
abbrev pub ut_unreserved : ℕ → Bool
ut_unreserved c = fm_unreserved c

abbrev pub one_of : Text → ℕ → Bool
one_of [] c = false
one_of (d ∷ ds) c = c == d || one_of ds c

abbrev pub ut_reserved : ℕ → Bool
ut_reserved c = one_of (txt ":/?#[]@!$&'()*+,;=") c

abbrev pub ut_hex : ℕ → Bool
ut_hex c = is_hex c

-- two hexadecimal digits at the front
abbrev pub starts_hex : Text → Bool
starts_hex [] = false
starts_hex (a ∷ []) = false
starts_hex (a ∷ b ∷ s) = ut_hex a && ut_hex b

-- what is copied, in front of a text
abbrev pub is_copied : Bool → ℕ → Text → Bool
is_copied reserved c s =
    ut_unreserved c || (reserved && ut_reserved c) || (reserved && (c == b'%' && starts_hex s))

unfoldable pub ut_encode : Bool → Text → Text
ut_encode reserved [] = []
ut_encode reserved (c ∷ s) =
    let rest = ut_encode reserved s in
    if is_copied reserved c s
    then c ∷ rest
    else b'%' ∷ hex_digit (c / 16) ∷ hex_digit (c % 16) ∷ rest

-- utDecode, `none` for an invalid escape
unfoldable pub ut_decode : Text → Option Text
unfolding unescape
ut_decode s = unescape s

abbrev pub is_operator : ℕ → Bool
is_operator c = one_of (txt "+#./;?&") c

-- strings.HasSuffix and the text without the suffix
abbrev pub strip_star : Text → Option Text
strip_star [] = none
strip_star (c ∷ []) = if c == b'*' then some [] else none
strip_star (c ∷ d ∷ s) = elim (strip_star (d ∷ s)) [ none ↦ none | some t ↦ some (c ∷ t) ]

module _ (atoi : Text → Option ℕ) where
  abbrev pub named_var : Text → Bool → Option ℕ → Result TemplateVar
  named_var name explode prefix =
      if is_empty name
      then failed (txt "uritemplate: empty variable name")
      else done (record { name = name; explode = explode; prefix = prefix })

  abbrev pub prefixed_var : Text → Option ℕ → Result TemplateVar
  prefixed_var name none = failed (txt "uritemplate: invalid prefix modifier")
  prefixed_var name (some n) = named_var name false (some n)

  -- one round of the loop of utParseExpr
  unfoldable pub parse_var : Text → Result TemplateVar
  unfolding cut
  parse_var raw = elim (strip_star raw) [
    | some name ↦ named_var name true none
    | none ↦ elim (cut b':' raw) [
      | some (name, digits) ↦ prefixed_var name (atoi digits)
      | none ↦ named_var raw false none
    ]
  ]

  abbrev pub then_var : Result TemplateVar → Result (List TemplateVar) → Result (List TemplateVar)
  then_var (failed m) rest = failed m
  then_var (done v) (failed m) = failed m
  then_var (done v) (done vs) = done (v ∷ vs)

  unfoldable pub parse_vars : List Text → Result (List TemplateVar)
  unfolding parse_var
  parse_vars [] = done []
  parse_vars (raw ∷ raws) = then_var (parse_var raw) (parse_vars raws)

  abbrev pub with_op : ℕ → Result (List TemplateVar) → Result TemplateExpr
  with_op op (failed m) = failed m
  with_op op (done vs) = done (record { op = op; vars = vs })

  abbrev pub parse_body : ℕ → Text → Result TemplateExpr
  parse_body op body =
      if is_empty body
      then failed (txt "uritemplate: expression with operator but no variables")
      else with_op op (parse_vars (split b',' body))

  -- utParseExpr
  unfoldable pub parse_expr : Text → Result TemplateExpr
  unfolding parse_vars split
  parse_expr [] = failed (txt "uritemplate: empty expression")
  parse_expr (c ∷ body) = if is_operator c then parse_body c body else parse_body 0 (c ∷ body)

  -- a run of literal text is one part
  abbrev pub push_byte : ℕ → List TemplatePart → List TemplatePart
  push_byte c (literal t ∷ ps) = literal (c ∷ t) ∷ ps
  push_byte c ps = literal (c ∷ []) ∷ ps

  abbrev pub then_byte : ℕ → Result (List TemplatePart) → Result (List TemplatePart)
  then_byte c (failed m) = failed m
  then_byte c (done ps) = done (push_byte c ps)

  abbrev pub then_expr :
      Result TemplateExpr → Result (List TemplatePart) → Result (List TemplatePart)
  then_expr (failed m) rest = failed m
  then_expr (done e) (failed m) = failed m
  then_expr (done e) (done ps) = done (expression e ∷ ps)

  -- the loop of Parse; each round uses up a byte, so the length of the text is fuel enough
  unfoldable pub parse_from : ℕ → Text → Result (List TemplatePart)
  unfolding parse_expr cut
  parse_from zero s = done []
  parse_from (suc fuel) [] = done []
  parse_from (suc fuel) (c ∷ s) = elim (c == b'{') [
    | true ↦ elim (cut b'}' s) [
      | none ↦ failed (txt "uritemplate: unterminated expression")
      | some (body, rest) ↦ then_expr (parse_expr body) (parse_from fuel rest)
    ]
    | false ↦ elim (c == b'}') [
      | true ↦ failed (txt "uritemplate: unexpected '}'")
      | false ↦ then_byte c (parse_from fuel s)
    ]
  ]

  unfoldable pub parse : Text → Result (List TemplatePart)
  unfolding parse_from
  parse raw = parse_from (length raw) raw

-- Names, with the names seen so far
unfoldable pub var_names : List TemplateVar → List Text → List Text
unfolding mem_text
var_names [] seen = seen
var_names (v ∷ vs) seen = var_names vs (if mem_text v.name seen then seen else seen ++ v.name ∷ [])

unfoldable pub names_from : List TemplatePart → List Text → List Text
unfolding var_names
names_from [] seen = seen
names_from (literal t ∷ ps) seen = names_from ps seen
names_from (expression e ∷ ps) seen = names_from ps (var_names e.vars seen)

abbrev pub template_names : List TemplatePart → List Text
template_names ps = names_from ps []

unfoldable pub is_static : List TemplatePart → Bool
is_static [] = true
is_static (literal t ∷ ps) = is_static ps
is_static (expression e ∷ ps) = false
