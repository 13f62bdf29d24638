-- ===== src/Server/Template/Compile.antt =====
-- compileURITemplate of resource.go: the pieces of a template against its text.
use fastmcp.Prelude.{
  ℕ, zero, suc, ◌≤◌, Text, is_empty, length, length-append, Bool, true, false, List, [], ◌∷◌, ◌++◌,
  Option, none, some, Option-cases, inl, inr, ◌≡◌, refl, sym, ap, ◌∙◌, arith, if◌then◌else◌, ◌==◌,
  ==_iff,
}
use fastmcp.Server.Template.{
  Piece, lit, var, until_brace, variable_at, push_char, compile_from, compile_uri_template,
}

-- the text of pieces
unfoldable pub render : List Piece → Text
render [] = []
render (lit t ∷ ps) = t ++ render ps
render (var name ∷ ps) = b'{' ∷ name ++ b'}' ∷ render ps

render-push_char : (c : ℕ) (ps : List Piece) → render (push_char c ps) ≡ c ∷ render ps
unfolding render
render-push_char c [] = refl
render-push_char c (lit t ∷ ps) = refl
render-push_char c (var name ∷ ps) = refl

-- a name and the rest behind its brace put together again, or the text where there is no brace
abbrev joined : Option (Text × Text) → Text → Text
joined none s = s
joined (some (name, rest)) s = name ++ b'}' ∷ rest

joined_step :
    (b : Bool) (c : ℕ) (s : Text) (o : Option (Text × Text))
    → (b ≡ true → c ≡ b'}')
    → joined o s ≡ s
    → joined
        (if b
          then some ([], s)
          else elim o [ none ↦ none | some (name, rest) ↦ some (c ∷ name, rest) ])
        (c ∷ s)
      ≡ c ∷ s
joined_step true c s o h e = ap (λ x. x ∷ s) (sym (h refl))
joined_step false c s none h e = refl
joined_step false c s (some (name, rest)) h e = ap (λ x. c ∷ x) e

joined-until_brace : (s : Text) → joined (until_brace s) s ≡ s
unfolding until_brace
joined-until_brace [] = refl
joined-until_brace (c ∷ s) =
    joined_step (c == b'}') c s (until_brace s) (λ h. (==_iff c b'}').0 h) (joined-until_brace s)

abbrev braced : Option (Text × Text) → Text → Text
braced none s = s
braced (some (name, rest)) s = b'{' ∷ name ++ b'}' ∷ rest

braced_found :
    (b : Bool) (c : ℕ) (s name rest : Text)
    → c ≡ b'{'
    → name ++ b'}' ∷ rest ≡ s
    → braced (if b then none else some (name, rest)) (c ∷ s) ≡ c ∷ s
braced_found true c s name rest h e = refl
braced_found false c s name rest h e = ap (λ x. b'{' ∷ x) e ∙ ap (λ x. x ∷ s) (sym h)

braced_step :
    (b : Bool) (c : ℕ) (s : Text) (o : Option (Text × Text))
    → (b ≡ true → c ≡ b'{')
    → joined o s ≡ s
    → braced
        (if b
          then elim o [
            | none ↦ none
            | some (name, rest) ↦ if is_empty name then none else some (name, rest)
          ]
          else none)
        (c ∷ s)
      ≡ c ∷ s
braced_step false c s o h e = refl
braced_step true c s none h e = refl
braced_step true c s (some (name, rest)) h e = braced_found (is_empty name) c s name rest (h refl) e

braced-variable_at : (c : ℕ) (s : Text) → braced (variable_at (c ∷ s)) (c ∷ s) ≡ c ∷ s
braced-variable_at c s =
    braced_step (c == b'{') c s (until_brace s) (λ h. (==_iff c b'{').0 h) (joined-until_brace s)

render-compile_from : (n : ℕ) (s : Text) → length s ≤ n → render (compile_from n s) ≡ s
unfolding compile_from render
render-compile_from zero [] h = refl
render-compile_from zero (c ∷ s) h = absurd (omega arith)
render-compile_from (suc n) [] h = refl
render-compile_from (suc n) (c ∷ s) h = elim (Option-cases (variable_at (c ∷ s))) [
  | inl m ↦
      rw (m, compile_from)
        (render-push_char c (compile_from n s)
          ∙ ap (λ x. c ∷ x) (render-compile_from n s (omega arith)))
  | inr ((name, rest), m) ↦
      let e : b'{' ∷ name ++ b'}' ∷ rest ≡ c ∷ s = rw m at (braced-variable_at c s) in
      let shorter : length rest ≤ n =
        omega (arith, ap length e, length-append name (b'}' ∷ rest)) in
      rw (m, compile_from)
        (ap (λ x. b'{' ∷ name ++ b'}' ∷ x) (render-compile_from n rest shorter) ∙ e)
]

-- Compiling loses nothing of a template: its pieces, literal texts as they are and variables in braces,
-- are its text.
pub render-compile_uri_template : (tmpl : Text) → render (compile_uri_template tmpl) ≡ tmpl
unfolding compile_uri_template
render-compile_uri_template tmpl = render-compile_from (length tmpl) tmpl (omega arith)
