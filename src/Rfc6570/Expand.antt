-- ===== src/Rfc6570/Expand.antt =====
-- uritemplate/uritemplate.go: the expansion of a template. Sorting keys and cutting a text after a number of
-- runes are parameters; a number or a Stringer is the text that strconv or the value makes of it.
use fastmcp.Prelude.{
  ℕ, Text, txt, is_empty, Bool, true, false, ◌&&◌, ◌++◌, List, [], ◌∷◌, map, Option, none, some,
  Result, done, failed, if◌then◌else◌,
}
use fastmcp.Prelude.Dict.{Dict, get}
use fastmcp.Uri.{cut}
use fastmcp.Rfc6570.{
  TemplateVar, TemplateExpr, TemplatePart, literal, expression, OpConfig, ut_operator, ut_encode,
  parse,
}

pub data Scalar : Type 0 where
  text : Text → Scalar
  flag : Bool → Scalar
  printed : Text → Scalar

-- a value of a variable: nil is `nothing`, and a value of any other type a scalar, as printed
pub data VarValue : Type 0 where
  nothing : VarValue
  scalar : Scalar → VarValue
  texts : List Text → VarValue
  scalars : List Scalar → VarValue
  text_map : Dict Text → VarValue
  scalar_map : Dict Scalar → VarValue

pub data Normal : Type 0 where
  empty : Normal
  one_text : Text → Normal
  text_list : List Text → Normal
  pairs : List (Text × Text) → Normal

-- utScalar
abbrev pub ut_scalar : Scalar → Text
ut_scalar (text t) = t
ut_scalar (flag true) = txt "true"
ut_scalar (flag false) = txt "false"
ut_scalar (printed t) = t

abbrev pub keys_of : {V : Type 0} → Dict V → List Text
keys_of [] = []
keys_of ((k, v) ∷ m) = k ∷ keys_of m

abbrev pub list_of : List Text → Normal
list_of [] = empty
list_of (t ∷ ts) = text_list (t ∷ ts)

abbrev pub or_empty_text : Option Text → Text
or_empty_text none = []
or_empty_text (some t) = t

module _ (sort : List Text → List Text) (first_runes : ℕ → Text → Text) where
  -- the pairs of a map in the order of its keys
  abbrev pub pairs_of : Dict Text → Normal
  pairs_of [] = empty
  pairs_of (p ∷ m) = pairs (map (λ k. (k, or_empty_text (get k (p ∷ m)))) (sort (keys_of (p ∷ m))))

  -- utNormalize
  unfoldable pub ut_normalize : VarValue → Normal
  unfolding get
  ut_normalize nothing = empty
  ut_normalize (scalar s) = one_text (ut_scalar s)
  ut_normalize (texts ts) = list_of ts
  ut_normalize (scalars ss) = list_of (map ut_scalar ss)
  ut_normalize (text_map m) = pairs_of m
  ut_normalize (scalar_map m) = pairs_of (map (λ p. (p.0, ut_scalar p.1)) m)

  abbrev pub cut_prefix : Option ℕ → Text → Text
  cut_prefix none s = s
  cut_prefix (some n) s = first_runes n s

  -- `name`, or `name=` and the encoded value
  abbrev pub named_value : TemplateVar → OpConfig → Text → Text
  named_value v cfg s =
      v.name ++ (if is_empty s then cfg.if_empty else b'=' ∷ ut_encode cfg.reserved s)

  abbrev pub one_value : TemplateVar → OpConfig → Text → Text
  one_value v cfg s = if cfg.named then named_value v cfg s else ut_encode cfg.reserved s

  -- the texts with a separator between them
  unfoldable pub joined_by : Text → List Text → Text
  joined_by sep [] = []
  joined_by sep (t ∷ []) = t
  joined_by sep (t ∷ u ∷ ts) = t ++ (sep ++ joined_by sep (u ∷ ts))

  -- the name before a list or map that is not exploded
  abbrev pub name_before : TemplateVar → OpConfig → Text
  name_before v cfg = if cfg.named then v.name ++ b'=' ∷ [] else []

  -- utExpandList, of a list that is not empty
  unfoldable pub expand_list : TemplateVar → OpConfig → List Text → Text
  unfolding ut_encode joined_by
  expand_list v cfg items =
      if v.explode
      then joined_by cfg.sep (map (one_value v cfg) items)
      else name_before v cfg ++ joined_by (txt ",") (map (ut_encode cfg.reserved) items)

  -- `cfg.ifEmpty` from behind its '='
  abbrev pub behind_equals : Text → Text
  behind_equals s = elim (cut b'=' s) [ none ↦ s | some (before, after) ↦ after ]

  abbrev pub pair_value : OpConfig → Text × Text → Text
  pair_value cfg (k, v) =
      ut_encode cfg.reserved k
      ++ b'='
        ∷ (if is_empty v && cfg.named then behind_equals cfg.if_empty else ut_encode cfg.reserved v)

  abbrev pub flat_pair : OpConfig → Text × Text → Text
  flat_pair cfg (k, v) = ut_encode cfg.reserved k ++ b',' ∷ ut_encode cfg.reserved v

  -- utExpandMap, of a map that is not empty
  unfoldable pub expand_map : TemplateVar → OpConfig → List (Text × Text) → Text
  unfolding ut_encode joined_by cut
  expand_map v cfg ps =
      if v.explode
      then joined_by cfg.sep (map (pair_value cfg) ps)
      else name_before v cfg ++ joined_by (txt ",") (map (flat_pair cfg) ps)

  -- what a variable writes, if anything
  abbrev pub expand_value : TemplateVar → OpConfig → Normal → Option Text
  expand_value v cfg empty = none
  expand_value v cfg (one_text s) = some (one_value v cfg (cut_prefix v.prefix s))
  expand_value v cfg (text_list ts) = some (expand_list v cfg ts)
  expand_value v cfg (pairs ps) = some (expand_map v cfg ps)

  abbrev pub lookup_value : Option VarValue → Normal
  lookup_value none = empty
  lookup_value (some v) = ut_normalize v

  -- the values that are written
  unfoldable pub expand_values : OpConfig → List TemplateVar → Dict VarValue → List Text
  unfolding ut_normalize expand_list expand_map ut_encode get
  expand_values cfg [] vars = []
  expand_values cfg (v ∷ vs) vars =
      let rest = expand_values cfg vs vars in
      elim (expand_value v cfg (lookup_value (get v.name vars))) [ none ↦ rest | some t ↦ t ∷ rest ]

  -- `first` before the first value, `sep` before each other
  abbrev pub led : OpConfig → List Text → Text
  led cfg [] = []
  led cfg (t ∷ ts) = cfg.first ++ joined_by cfg.sep (t ∷ ts)

  -- utExpandExpr
  unfoldable pub expand_expr : TemplateExpr → Dict VarValue → Text
  unfolding expand_values joined_by ut_operator
  expand_expr e vars = led (ut_operator e.op) (expand_values (ut_operator e.op) e.vars vars)

  -- Template.Expand
  unfoldable pub expand_parts : List TemplatePart → Dict VarValue → Text
  unfolding expand_expr ut_encode
  expand_parts [] vars = []
  expand_parts (literal t ∷ ps) vars = ut_encode true t ++ expand_parts ps vars
  expand_parts (expression e ∷ ps) vars = expand_expr e vars ++ expand_parts ps vars

  -- Expand
  unfoldable pub expand : (Text → Option ℕ) → Text → Dict VarValue → Result Text
  unfolding parse expand_parts
  expand atoi raw vars = elim (parse atoi raw) [
    | failed m ↦ failed m
    | done ps ↦ done (expand_parts ps vars)
  ]
