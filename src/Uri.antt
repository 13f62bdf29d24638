-- ===== src/Uri.antt =====
-- uritemplate/fastmcp.go: percent encoding, as the resource templates of FastMCP use it, and the
-- queries of a URI. A byte is a number below 256.
pub mod Encoding
pub mod Placeholders
pub mod RoundTrip
pub mod Splitting
pub mod Tokens
use fastmcp.Prelude.{
  ℕ, ◌+◌, ◌-◌, ◌*◌, ◌/◌, ◌%◌, Text, txt, text_eq, is_empty, has_prefix, Bool, true, false, ◌&&◌,
  ◌||◌, List, [], ◌∷◌, ◌++◌, Option, none, some, leb, ltb, ◌==◌, if◌then◌else◌,
}
use fastmcp.Prelude.Dict.{Dict, get, put}

abbrev pub is_between : ℕ → ℕ → ℕ → Bool
is_between low high c = leb low c && leb c high

abbrev pub fm_unreserved : ℕ → Bool
fm_unreserved c =
    is_between b'A' b'Z' c
    || is_between b'a' b'z' c
    || is_between b'0' b'9' c
    || c == b'-'
    || c == b'.'
    || c == b'_'
    || c == b'~'

-- the digits "0123456789ABCDEF"
abbrev pub hex_digit : ℕ → ℕ
hex_digit d = if ltb d 10 then d + 48 else d + 55

abbrev pub is_kept : Bool → ℕ → Bool
is_kept wildcard c = fm_unreserved c || (wildcard && c == b'/')

unfoldable pub fm_encode : Bool → Text → Text
fm_encode wildcard [] = []
fm_encode wildcard (c ∷ s) =
    let rest = fm_encode wildcard s in
    if is_kept wildcard c then c ∷ rest else b'%' ∷ hex_digit (c / 16) ∷ hex_digit (c % 16) ∷ rest

-- net/url: `ishex` and `unhex`
abbrev pub is_hex : ℕ → Bool
is_hex c = is_between b'0' b'9' c || is_between b'a' b'f' c || is_between b'A' b'F' c

abbrev pub unhex : ℕ → ℕ
unhex c =
    if is_between b'0' b'9' c
    then c - 48
    else if is_between b'a' b'f' c
    then c - 87
    else if is_between b'A' b'F' c
    then c - 55
    else 0

abbrev pub cons_to : ℕ → Option Text → Option Text
cons_to c none = none
cons_to c (some s) = some (c ∷ s)

-- url.PathUnescape, or an error
unfoldable pub unescape : Text → Option Text
unescape [] = some []
unescape (c ∷ []) = elim (c == b'%') [ true ↦ none | false ↦ some (c ∷ []) ]
unescape (c ∷ a ∷ []) = elim (c == b'%') [ true ↦ none | false ↦ cons_to c (unescape (a ∷ [])) ]
unescape (c ∷ a ∷ b ∷ s) = elim (c == b'%') [
  | true ↦ elim (is_hex a && is_hex b) [
    | true ↦ cons_to (unhex a * 16 + unhex b) (unescape s)
    | false ↦ none
  ]
  | false ↦ cons_to c (unescape (a ∷ b ∷ s))
]

abbrev pub or_raw : Text → Option Text → Text
or_raw s none = s
or_raw s (some t) = t

unfoldable pub path_unescape : Text → Text
unfolding unescape
path_unescape s = or_raw s (unescape s)

-- strings.IndexByte, as the text before the byte and the text behind it
unfoldable pub cut : ℕ → Text → Option (Text × Text)
cut b [] = none
cut b (c ∷ s) =
    if c == b
    then some ([], s)
    else elim (cut b s) [ none ↦ none | some (before, after) ↦ some (c ∷ before, after) ]

-- strings.Split at a byte
abbrev pub head_cons : ℕ → List Text → List Text
head_cons c [] = (c ∷ []) ∷ []
head_cons c (t ∷ ts) = (c ∷ t) ∷ ts

unfoldable pub split : ℕ → Text → List Text
split b [] = [] ∷ []
split b (c ∷ s) = let rest = split b s in if c == b then [] ∷ rest else head_cons c rest

-- one pair of parseQueryKeepBlank: the key and the value, unescaped
unfoldable pub query_pair : Text → Text × Text
unfolding path_unescape cut
query_pair pair = elim (cut b'=' pair) [
  | none ↦ (path_unescape pair, [])
  | some (key, value) ↦ (path_unescape key, path_unescape value)
]

abbrev pub or_empty : Option (List Text) → List Text
or_empty none = []
or_empty (some vs) = vs

-- the loop over the pairs: `out[key] = append(out[key], val)`
unfoldable pub add_pairs : List Text → Dict (List Text) → Dict (List Text)
unfolding query_pair
add_pairs [] out = out
add_pairs (pair ∷ pairs) out =
    if is_empty pair
    then add_pairs pairs out
    else let (key, value) = query_pair pair in
      add_pairs pairs (put key (or_empty (get key out) ++ value ∷ []) out)

unfoldable pub parse_query_keep_blank : Text → Dict (List Text)
unfolding add_pairs split
parse_query_keep_blank raw = if is_empty raw then [] else add_pairs (split b'&' raw) []
