-- ===== src/Uri/RoundTrip.antt =====
-- Matching undoes expanding, for the templates of uritemplate/fastmcp.go whose groups are apart.
use fastmcp.Prelude.{
  ℕ, suc, Text, is_empty, has_prefix-append, drop-append, take-append, length, drop, All,
  All-append, Bool, true, false, List, [], ◌∷◌, ◌++◌, Option, none, some, Option-cases, inl, inr,
  ◌≡◌, ◌≢◌, refl, ap, ◌∙◌, arith, not, ◌||◌,
}
use mathlib.Core.List.{append-nil}
use fastmcp.Prelude.Dict.{Dict, put}
use fastmcp.Server.Template.{Matcher, try_group}
use fastmcp.Server.Registry.{mem_text}
use fastmcp.Uri.{fm_encode, cut}
use fastmcp.Uri.Encoding.{IsBytes, IsEncoded, fm_encode-IsEncoded, path_unescape-fm_encode}
use fastmcp.Uri.Placeholders.{
  Token, literal, placeholder, unclosed, Part, text, group, add_part, parse_placeholder,
  normalize_param_name, valid_group_name, build, build_regex, tokens, split_query_expr, stops,
  run_length, find_values, group_names, bind_values, bind_query, match_uri_template, split_uri,
  value_of, expand_tokens, expand_query, expand_uri_template,
}

unfoldable pub expand_parts : List Part → Dict Text → Text
expand_parts [] params = []
expand_parts (text t ∷ ps) params = t ++ expand_parts ps params
expand_parts (group wild name ∷ ps) params =
    fm_encode wild (value_of params name) ++ expand_parts ps params

-- A group ends where the path ends or, if it is simple, at a slash; a wildcard is last.
abbrev pub StartsSlash : Text → Type 0
StartsSlash [] = ⊥
StartsSlash (c ∷ t) = c ≡ b'/'

abbrev pub IsSeparated : List Part → Type 0
IsSeparated [] = Unit
IsSeparated (text t ∷ ps) = IsSeparated ps
IsSeparated (group wild name ∷ []) = Unit
IsSeparated (group wild name ∷ group w n ∷ ps) = ⊥
IsSeparated (group wild name ∷ text t ∷ ps) = (wild ≡ false) × StartsSlash t × IsSeparated ps

-- A value of bytes, not empty, for every group; and no question mark in the texts.
abbrev pub HasValues : Dict Text → List Part → Type 0
HasValues params [] = Unit
HasValues params (text t ∷ ps) = HasValues params ps
HasValues params (group wild name ∷ ps) =
    (is_empty (value_of params name) ≡ false) × IsBytes (value_of params name) × HasValues params ps

abbrev pub IsPlain : List Part → Type 0
IsPlain [] = Unit
IsPlain (text t ∷ ps) = All (λ c. c ≢ b'?') t × IsPlain ps
IsPlain (group wild name ∷ ps) = IsPlain ps

-- what the parts bind
unfoldable pub bindings : List Part → Dict Text → Dict Text → Dict Text
bindings [] params out = out
bindings (text t ∷ ps) params out = bindings ps params out
bindings (group wild name ∷ ps) params out =
    bindings ps params (put name (value_of params name) out)

encoded_values : List Part → Dict Text → List Text
encoded_values [] params = []
encoded_values (text t ∷ ps) params = encoded_values ps params
encoded_values (group wild name ∷ ps) params =
    fm_encode wild (value_of params name) ∷ encoded_values ps params

abbrev EndsRun : Bool → Text → Type 0
EndsRun wild [] = Unit
EndsRun wild (c ∷ t) = stops wild c ≡ true

stops-IsEncoded : (wild : Bool) (c : ℕ) → IsEncoded wild c → stops wild c ≡ false
stops-IsEncoded true c h = ground arith
stops-IsEncoded false c h = ground arith

run_length-append :
    (wild : Bool) (v t : Text)
    → All (IsEncoded wild) v
    → EndsRun wild t
    → run_length wild (v ++ t) ≡ length v
unfolding run_length
run_length-append wild [] [] a e = refl
run_length-append wild [] (c ∷ t) a e = rw e
run_length-append wild (c ∷ v) t a e =
    rw (stops-IsEncoded wild c a.0) (ap suc (run_length-append wild v t a.1 e))

try_group-append :
    (rest : Matcher) (v t : Text) (caps : List Text)
    → is_empty v ≡ false
    → rest t ≡ some caps
    → try_group rest (length v) (v ++ t) ≡ some (v ∷ caps)
unfolding try_group
try_group-append rest [] t caps n e = cc
try_group-append rest (c ∷ v) t caps n e =
    let at : rest (drop (length v) (v ++ t)) ≡ some caps = rw (drop-append v t) e in
    rw at (ap (λ x. some ((c ∷ x) ∷ caps)) (take-append v t))

group_found :
    (wild : Bool) (name t : Text) (ps : List Part) (v : Text) (caps : List Text)
    → IsBytes v
    → is_empty v ≡ false
    → EndsRun wild t
    → find_values ps t ≡ some caps
    → find_values (group wild name ∷ ps) (fm_encode wild v ++ t) ≡ some (fm_encode wild v ∷ caps)
unfolding find_values
group_found wild name t ps v caps b n e f =
    let (encoded, empty) = fm_encode-IsEncoded wild v b in
    ap (λ k. try_group (find_values ps) k (fm_encode wild v ++ t))
      (run_length-append wild (fm_encode wild v) t encoded e)
    ∙ try_group-append (find_values ps) (fm_encode wild v) t caps (empty ∙ n) f

text_found :
    (t rest : Text) (ps : List Part) (caps : List Text)
    → find_values ps rest ≡ some caps
    → find_values (text t ∷ ps) (t ++ rest) ≡ some caps
text_found t rest ps caps e =
    unfold find_values in rw (has_prefix-append t rest, drop-append t rest) e

slash_stops :
    (wild : Bool) (t rest : Text) → wild ≡ false → StartsSlash t → EndsRun wild (t ++ rest)
slash_stops wild [] rest w s = absurd s
slash_stops wild (c ∷ t) rest w s = rw (w, s)

find_values-expand_parts :
    (ps : List Part) (params : Dict Text)
    → IsSeparated ps
    → HasValues params ps
    → find_values ps (expand_parts ps params) ≡ some (encoded_values ps params)
unfolding expand_parts encoded_values
find_values-expand_parts [] params s h = unfold find_values in refl
find_values-expand_parts (text t ∷ ps) params s h =
    text_found t (expand_parts ps params) ps (encoded_values ps params)
      (find_values-expand_parts ps params s h)
find_values-expand_parts (group wild name ∷ []) params s h =
    group_found wild name [] [] (value_of params name) [] h.1 h.0 tt (unfold find_values in refl)
find_values-expand_parts (group wild name ∷ group w n ∷ ps) params s h = absurd s
find_values-expand_parts (group wild name ∷ text t ∷ ps) params s h =
    group_found wild name (t ++ expand_parts ps params) (text t ∷ ps) (value_of params name)
      (encoded_values ps params) h.1 h.0 (slash_stops wild t (expand_parts ps params) s.0 s.1)
      (find_values-expand_parts (text t ∷ ps) params s.2 h.2)

bind_values-encoded_values :
    (ps : List Part) (params out : Dict Text)
    → HasValues params ps
    → bind_values (group_names ps) (encoded_values ps params) out ≡ bindings ps params out
unfolding encoded_values bindings
bind_values-encoded_values [] params out h = refl
bind_values-encoded_values (text t ∷ ps) params out h = bind_values-encoded_values ps params out h
bind_values-encoded_values (group wild name ∷ ps) params out h =
    ap (λ v. bind_values (group_names ps) (encoded_values ps params) (put name v out))
      (path_unescape-fm_encode wild (value_of params name) h.1)
    ∙ bind_values-encoded_values ps params (put name (value_of params name) out) h.2

add_part-some :
    (p : Part) (o : Option (List Part)) (qs : List Part)
    → add_part p o ≡ some qs
    → (ps : List Part) × (o ≡ some ps) × (p ∷ ps ≡ qs)
add_part-some p none qs e = let clash : ⊥ = cc e in absurd clash
add_part-some p (some ps) qs e = (ps, refl, cc e)

build_group :
    (bad wild : Bool) (name : Text) (o : Option (List Part)) (ps : List Part)
    → elim bad [ true ↦ none | false ↦ add_part (group wild name) o ] ≡ some ps
    → (qs : List Part) × (o ≡ some qs) × (group wild name ∷ qs ≡ ps)
build_group true wild name o ps e = let clash : ⊥ = cc e in absurd clash
build_group false wild name o ps e = add_part-some (group wild name) o ps e

expand_tokens-build :
    (seen : List Text) (ts : List Token) (ps : List Part) (params : Dict Text)
    → build seen ts ≡ some ps
    → expand_tokens ts params ≡ expand_parts ps params
unfolding build expand_tokens expand_parts
expand_tokens-build seen [] ps params e = let at : [] ≡ ps = cc e in rw (← at)
expand_tokens-build seen (literal t ∷ ts) ps params e =
    let (qs, m, at) = add_part-some (text t) (build seen ts) ps e in
    rw (← at) (ap (λ x. t ++ x) (expand_tokens-build seen ts qs params m))
expand_tokens-build seen (unclosed t ∷ ts) ps params e = let clash : ⊥ = cc e in absurd clash
expand_tokens-build seen (placeholder body ∷ ts) ps params e =
    elim (Option-cases (parse_placeholder body)) [
      | inl m ↦ let clash : ⊥ = cc (rw (m, build) at e) in absurd clash
      | inr ((raw, wild), m) ↦
          let name = normalize_param_name raw in
          let (qs, built, at) =
            build_group (not (valid_group_name name) || mem_text name seen) wild name
              (build (name ∷ seen) ts) ps (rw (m, build) at e) in
          rw (m, expand_tokens, ← at)
            (ap (λ x. fm_encode wild (value_of params name) ++ x)
              (expand_tokens-build (name ∷ seen) ts qs params built))
    ]

cut-none : (b : ℕ) (s : Text) → All (λ c. c ≢ b) s → cut b s ≡ none
unfolding cut
cut-none b [] h = refl
cut-none b (c ∷ s) h = ground (arith, h.0, cut-none b s h.1)

not_question : (wild : Bool) (c : ℕ) → IsEncoded wild c → c ≢ b'?'
not_question wild c h = ground arith

All-not_question : (wild : Bool) (v : Text) → All (IsEncoded wild) v → All (λ c. c ≢ b'?') v
All-not_question wild [] h = tt
All-not_question wild (c ∷ v) h = (not_question wild c h.0, All-not_question wild v h.1)

plain-expand_parts :
    (ps : List Part) (params : Dict Text)
    → IsPlain ps
    → HasValues params ps
    → All (λ c. c ≢ b'?') (expand_parts ps params)
unfolding expand_parts
plain-expand_parts [] params p h = tt
plain-expand_parts (text t ∷ ps) params p h =
    All-append (λ c. c ≢ b'?') t (expand_parts ps params) p.0 (plain-expand_parts ps params p.1 h)
plain-expand_parts (group wild name ∷ ps) params p h =
    All-append (λ c. c ≢ b'?') (fm_encode wild (value_of params name)) (expand_parts ps params)
      (All-not_question wild (fm_encode wild (value_of params name))
        (fm_encode-IsEncoded wild (value_of params name) h.1).0)
      (plain-expand_parts ps params p h.2)

expand_path :
    (template : Text) (params : Dict Text) (parts : List Part)
    → (split_query_expr template).1 ≡ []
    → build_regex template ≡ some parts
    → expand_uri_template template params ≡ expand_parts parts params
unfolding expand_uri_template build_regex expand_query
expand_path template params parts q b = rw q (
    append-nil (expand_tokens (tokens (split_query_expr template).0) params)
    ∙ expand_tokens-build [] (tokens (split_query_expr template).0) parts params b)

split_uri-none : (uri : Text) → cut b'?' uri ≡ none → split_uri uri ≡ (uri, [])
split_uri-none uri c = rw (c, split_uri)

match_path :
    (template uri : Text) (parts : List Part) (vs : List Text)
    → (split_query_expr template).1 ≡ []
    → build_regex template ≡ some parts
    → cut b'?' uri ≡ none
    → find_values parts uri ≡ some vs
    → match_uri_template uri template ≡ some (bind_values (group_names parts) vs [])
unfolding match_uri_template bind_query
match_path template uri parts vs q b c f =
    rw (b, match_uri_template) (rw (split_uri-none uri c) (rw f (rw q)))

-- Matching undoes expanding: for a template without a query whose groups are apart and whose texts have
-- no question mark, and parameters with bytes, not empty, for each of its groups, the expansion matches
-- the template and gives every group its parameter back, slashes and reserved characters included.
pub match-expand_uri_template :
    (template : Text) (params : Dict Text) (parts : List Part)
    → (split_query_expr template).1 ≡ []
    → build_regex template ≡ some parts
    → IsSeparated parts
    → IsPlain parts
    → HasValues params parts
    → match_uri_template (expand_uri_template template params) template
      ≡ some (bindings parts params [])
match-expand_uri_template template params parts q b s p h =
    ap (λ uri. match_uri_template uri template) (expand_path template params parts q b)
    ∙ match_path template (expand_parts parts params) parts (encoded_values parts params) q b
        (cut-none b'?' (expand_parts parts params) (plain-expand_parts parts params p h))
        (find_values-expand_parts parts params s h)
    ∙ ap some (bind_values-encoded_values parts params [] h)
