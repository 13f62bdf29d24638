-- ===== src/Uri/Placeholders.antt =====
-- uritemplate/fastmcp.go: BuildRegex, MatchURITemplate and ExpandURITemplate. A path is read into
-- tokens, and the regular expression of a template is its parts: literal text and groups, `[^/]+` or
-- `.+`, matched as Go's regexp does, leftmost and longest first. White space is ASCII.
use fastmcp.Prelude.{
  ℕ, zero, suc, Text, txt, is_empty, has_prefix, length, drop, Bool, true, false, ◌&&◌, ◌||◌, not,
  List, [], ◌∷◌, ◌++◌, map, Option, none, some, ◌==◌, if◌then◌else◌,
}
use mathlib.Core.List.{reverse}
use fastmcp.Prelude.Dict.{Dict, get, put, has}
use fastmcp.Server.Template.{try_group}
use fastmcp.Server.Registry.{mem_text}
use fastmcp.Uri.{is_between, fm_encode, path_unescape, cut, split, parse_query_keep_blank}

-- normalizeParamName
abbrev pub normalize_param_name : Text → Text
normalize_param_name name = map (λ c. if c == b'-' then b'_' else c) name

abbrev pub is_name_start : ℕ → Bool
is_name_start c = is_between b'a' b'z' c || is_between b'A' b'Z' c || c == b'_'

abbrev pub is_name_tail : Text → Bool
is_name_tail [] = true
is_name_tail (c ∷ s) = (is_name_start c || is_between b'0' b'9' c) && is_name_tail s

abbrev pub valid_group_name : Text → Bool
valid_group_name [] = false
valid_group_name (c ∷ s) = is_name_start c && is_name_tail s

abbrev pub is_space : ℕ → Bool
is_space c = c == 32 || is_between 9 13 c

abbrev pub trim_left : Text → Text
trim_left [] = []
trim_left (c ∷ s) = elim (is_space c) [ true ↦ trim_left s | false ↦ c ∷ s ]

-- strings.TrimSpace
abbrev pub trim_space : Text → Text
trim_space s = reverse (trim_left (reverse (trim_left s)))

-- strings.Index of a two-byte operator: the text before it and the text behind it
unfoldable pub cut_at : Text → Text → Option (Text × Text)
cut_at op [] = none
cut_at op (c ∷ s) =
    if has_prefix (c ∷ s) op
    then some ([], drop (length op) (c ∷ s))
    else elim (cut_at op s) [ none ↦ none | some (before, after) ↦ some (c ∷ before, after) ]

unfoldable pub query_names : List Text → List Text
query_names [] = []
query_names (raw ∷ raws) =
    let rest = query_names raws in if is_empty (trim_space raw) then rest else trim_space raw ∷ rest

-- one round of the loop over the operators
unfoldable pub split_at_op : Text → Text → Option (Text × List Text)
unfolding cut_at query_names cut split
split_at_op op template = elim (cut_at op template) [
  | none ↦ none
  | some (before, after) ↦ elim (cut b'}' after) [
    | none ↦ none
    | some (body, rest) ↦ some (before ++ rest, query_names (split b',' body))
  ]
]

unfoldable pub split_query_expr : Text → Text × List Text
unfolding split_at_op
split_query_expr template = elim (split_at_op (txt "{?") template) [
  | some found ↦ found
  | none ↦ elim (split_at_op (txt "{&") template) [ some found ↦ found | none ↦ (template, []) ]
]

pub data Token : Type 0 where
  literal : Text → Token
  placeholder : Text → Token
  unclosed : Text → Token

abbrev pub push_literal : ℕ → List Token → List Token
push_literal c (literal t ∷ ts) = literal (c ∷ t) ∷ ts
push_literal c ts = literal (c ∷ []) ∷ ts

-- The loop over the path; each round uses up a character, so its length is fuel enough.
unfoldable pub tokens_from : ℕ → Text → List Token
unfolding cut
tokens_from zero s = []
tokens_from (suc fuel) [] = []
tokens_from (suc fuel) (c ∷ s) = elim (c == b'{') [
  | true ↦ elim (cut b'}' s) [
    | none ↦ unclosed (c ∷ s) ∷ []
    | some (body, rest) ↦ placeholder body ∷ tokens_from fuel rest
  ]
  | false ↦ push_literal c (tokens_from fuel s)
]

unfoldable pub tokens : Text → List Token
unfolding tokens_from
tokens path = tokens_from (length path) path

-- `^([^*]+)(\*?)$`: the name, and whether a star follows
abbrev pub add_to_name : ℕ → Option (Text × Bool) → Option (Text × Bool)
add_to_name c none = none
add_to_name c (some (name, wild)) = some (c ∷ name, wild)

unfoldable pub parse_placeholder : Text → Option (Text × Bool)
parse_placeholder [] = none
parse_placeholder (c ∷ []) = if c == b'*' then none else some (c ∷ [], false)
parse_placeholder (c ∷ d ∷ []) =
    if c == b'*' then none else if d == b'*' then some (c ∷ [], true) else some (c ∷ d ∷ [], false)
parse_placeholder (c ∷ d ∷ e ∷ s) =
    let rest = parse_placeholder (d ∷ e ∷ s) in if c == b'*' then none else add_to_name c rest

pub data Part : Type 0 where
  text : Text → Part
  group : Bool → Text → Part

abbrev pub add_part : Part → Option (List Part) → Option (List Part)
add_part p none = none
add_part p (some ps) = some (p ∷ ps)

-- BuildRegex of the tokens; `seen` are the names so far
unfoldable pub build : List Text → List Token → Option (List Part)
unfolding parse_placeholder mem_text
build seen [] = some []
build seen (literal t ∷ ts) = add_part (text t) (build seen ts)
build seen (unclosed t ∷ ts) = none
build seen (placeholder body ∷ ts) = elim (parse_placeholder body) [
  | none ↦ none
  | some (raw, wild) ↦
      let name = normalize_param_name raw in
      elim (not (valid_group_name name) || mem_text name seen) [
        | true ↦ none
        | false ↦ add_part (group wild name) (build (name ∷ seen) ts)
      ]
]

unfoldable pub build_regex : Text → Option (List Part)
unfolding build tokens split_query_expr
build_regex template = build [] (tokens (split_query_expr template).0)

-- how far a group reaches: `[^/]` or `.`, which is all but the line feed
abbrev pub stops : Bool → ℕ → Bool
stops wild c = if wild then c == 10 else c == b'/'

unfoldable pub run_length : Bool → Text → ℕ
run_length wild [] = 0
run_length wild (c ∷ s) = let n = run_length wild s in if stops wild c then 0 else suc n

-- FindStringSubmatch
unfoldable pub find_values : List Part → Text → Option (List Text)
unfolding run_length try_group
find_values [] [] = some []
find_values [] (c ∷ s) = none
find_values (text t ∷ ps) s = if has_prefix s t then find_values ps (drop (length t) s) else none
find_values (group wild name ∷ ps) s = try_group (find_values ps) (run_length wild s) s

abbrev pub group_names : List Part → List Text
group_names [] = []
group_names (text t ∷ ps) = group_names ps
group_names (group wild name ∷ ps) = name ∷ group_names ps

-- `out[name] = pathUnescape(m[i])`
abbrev pub bind_values : List Text → List Text → Dict Text → Dict Text
bind_values [] vs out = out
bind_values (name ∷ ns) [] out = out
bind_values (name ∷ ns) (v ∷ vs) out = bind_values ns vs (put name (path_unescape v) out)

abbrev pub first_of : List Text → Text
first_of [] = []
first_of (v ∷ vs) = v

-- the loop over the query names: a path parameter takes precedence
unfoldable pub bind_query : List Text → Dict (List Text) → Dict Text → Dict Text
bind_query [] q out = out
bind_query (raw ∷ raws) q out =
    if has (normalize_param_name raw) out then bind_query raws q out else elim (get raw q) [
      | none ↦ bind_query raws q out
      | some vals ↦ bind_query raws q (put (normalize_param_name raw) (first_of vals) out)
    ]

-- the path of a URI, and its query
abbrev pub split_uri : Text → Text × Text
split_uri uri = elim (cut b'?' uri) [ none ↦ (uri, []) | some parts ↦ parts ]

-- MatchURITemplate
unfoldable pub match_uri_template : Text → Text → Option (Dict Text)
unfolding build_regex find_values bind_query parse_query_keep_blank path_unescape cut
match_uri_template uri template = elim (build_regex template) [
  | none ↦ none
  | some parts ↦ elim (find_values parts (split_uri uri).0) [
    | none ↦ none
    | some vs ↦ some (
        bind_query (split_query_expr template).1 (parse_query_keep_blank (split_uri uri).1)
          (bind_values (group_names parts) vs []))
  ]
]

abbrev pub value_of : Dict Text → Text → Text
value_of params name = elim (get name params) [ none ↦ [] | some v ↦ v ]

-- the path of ExpandURITemplate
unfoldable pub expand_tokens : List Token → Dict Text → Text
unfolding parse_placeholder fm_encode
expand_tokens [] params = []
expand_tokens (literal t ∷ ts) params = t ++ expand_tokens ts params
expand_tokens (unclosed t ∷ ts) params = t
expand_tokens (placeholder body ∷ ts) params = elim (parse_placeholder body) [
  | none ↦ (b'{' ∷ body ++ b'}' ∷ []) ++ expand_tokens ts params
  | some (raw, wild) ↦
      fm_encode wild (value_of params (normalize_param_name raw)) ++ expand_tokens ts params
]

-- its query: the separator is '?' first, and '&' then
unfoldable pub expand_query : ℕ → List Text → Dict Text → Text
expand_query sep [] params = []
expand_query sep (raw ∷ raws) params = elim (get (normalize_param_name raw) params) [
  | none ↦ expand_query sep raws params
  | some v ↦ (sep ∷ raw ++ b'=' ∷ fm_encode false v) ++ expand_query b'&' raws params
]

-- ExpandURITemplate
unfoldable pub expand_uri_template : Text → Dict Text → Text
unfolding expand_tokens expand_query tokens split_query_expr
expand_uri_template template params =
    expand_tokens (tokens (split_query_expr template).0) params
    ++ expand_query b'?' (split_query_expr template).1 params
