-- ===== src/Server/Template.antt =====
-- resource.go: URI templates. A template is compiled to the pieces of its anchored regular
-- expression, literal text or one `([^/]+)` group, which are matched as Go's regexp does: leftmost
-- first, each group taking the longest run that lets the rest match. Regexp goes by runes: a group ends
-- where a rune starts. A URI is valid UTF-8, as is a text that encoding/json has decoded, and so is a
-- template (of another, MustCompile panics).
pub mod Matching
pub mod Compile
use fastmcp.Prelude.{
  ℕ, zero, suc, Text, has_prefix, is_empty, length, take, drop, Bool, true, false, List, [], ◌∷◌,
  ◌++◌, Option, none, some, ◌==◌, on_rune, if◌then◌else◌,
}
use fastmcp.Prelude.Dict.{Dict, put}

pub data Piece : Type 0 where
  lit : Text → Piece
  var : Text → Piece

-- `[^}]+` of templateVar: the text up to the first '}', and the text behind it, if there is one
unfoldable pub until_brace : Text → Option (Text × Text)
until_brace [] = none
until_brace (c ∷ s) =
    if c == b'}'
    then some ([], s)
    else elim (until_brace s) [ none ↦ none | some (name, rest) ↦ some (c ∷ name, rest) ]

-- `{([^}]+)}` at the front: the name and the text behind, where the name is not empty
abbrev pub variable_at : Text → Option (Text × Text)
variable_at [] = none
variable_at (c ∷ s) =
    if c == b'{'
    then elim (until_brace s) [
      | none ↦ none
      | some (name, rest) ↦ if is_empty name then none else some (name, rest)
    ]
    else none

abbrev pub push_char : ℕ → List Piece → List Piece
push_char c (lit t ∷ ps) = lit (c ∷ t) ∷ ps
push_char c ps = lit (c ∷ []) ∷ ps

-- FindAllStringSubmatchIndex from left to right, with the literal text between the matches. Each
-- round uses up a character, so the length of the text is fuel enough.
unfoldable pub compile_from : ℕ → Text → List Piece
compile_from zero s = []
compile_from (suc fuel) [] = []
compile_from (suc fuel) (c ∷ s) = elim (variable_at (c ∷ s)) [
  | none ↦ push_char c (compile_from fuel s)
  | some (name, rest) ↦ var name ∷ compile_from fuel rest
]

unfoldable pub compile_uri_template : Text → List Piece
unfolding compile_from until_brace
compile_uri_template tmpl = compile_from (length tmpl) tmpl

-- the length of the run of `[^/]` at the front
unfoldable pub segment_length : Text → ℕ
segment_length [] = 0
segment_length (c ∷ s) = if c == b'/' then 0 else suc (segment_length s)

abbrev pub Matcher : Type 0
Matcher = Text → Option (List Text)

-- one group: n characters, then n - 1, down to 1
unfoldable pub try_group : Matcher → ℕ → Text → Option (List Text)
try_group rest zero s = none
try_group rest (suc n) s = elim (rest (drop (suc n) s)) [
  | none ↦ try_group rest n s
  | some caps ↦ some (take (suc n) s ∷ caps)
]

-- FindStringSubmatch, without the whole match
unfoldable pub find_submatch : List Piece → Text → Option (List Text)
find_submatch [] [] = some []
find_submatch [] (c ∷ s) = none
find_submatch (lit t ∷ ps) s = if has_prefix s t then find_submatch ps (drop (length t) s) else none
find_submatch (var name ∷ ps) s = try_group (on_rune (find_submatch ps)) (segment_length s) s

abbrev pub names : List Piece → List Text
names [] = []
names (lit t ∷ ps) = names ps
names (var name ∷ ps) = name ∷ names ps

-- `params[name] = m[i+1]`, from left to right
abbrev pub assign : List Text → List Text → Dict Text → Dict Text
assign [] caps params = params
assign (name ∷ ns) [] params = params
assign (name ∷ ns) (seg ∷ caps) params = assign ns caps (put name seg params)

-- resourceTemplateEntry.match
unfoldable pub match_template : List Piece → Text → Option (Dict Text)
unfolding find_submatch try_group segment_length
match_template re uri = elim (find_submatch re uri) [
  | none ↦ none
  | some caps ↦ some (assign (names re) caps [])
]
