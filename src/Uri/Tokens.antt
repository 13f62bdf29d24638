-- ===== src/Uri/Tokens.antt =====
-- The tokens of a template, of uritemplate/fastmcp.go, lose nothing of its text.
use fastmcp.Prelude.{
  ℕ, zero, suc, ◌≤◌, Text, length, length-append, List, [], ◌∷◌, ◌++◌, Option, none, some,
  Bool-cases, inl, inr, ◌≡◌, refl, sym, ap, ◌∙◌, arith, ◌==◌, ==_iff,
}
use mathlib.Core.List.{append-nil}
use fastmcp.Uri.{cut}
use fastmcp.Uri.Placeholders.{
  Token, literal, placeholder, unclosed, push_literal, tokens_from, tokens,
}

unfoldable pub render_tokens : List Token → Text
render_tokens [] = []
render_tokens (literal t ∷ ts) = t ++ render_tokens ts
render_tokens (placeholder body ∷ ts) = b'{' ∷ (body ++ b'}' ∷ render_tokens ts)
render_tokens (unclosed t ∷ ts) = t ++ render_tokens ts

render_tokens-push_literal :
    (c : ℕ) (ts : List Token) → render_tokens (push_literal c ts) ≡ c ∷ render_tokens ts
unfolding render_tokens
render_tokens-push_literal c [] = refl
render_tokens-push_literal c (literal t ∷ ts) = refl
render_tokens-push_literal c (placeholder body ∷ ts) = refl
render_tokens-push_literal c (unclosed t ∷ ts) = refl

abbrev pub joined : ℕ → Option (Text × Text) → Text → Text
joined b none s = s
joined b (some (before, after)) s = before ++ b ∷ after

joined_later :
    (b c : ℕ) (s : Text) (o : Option (Text × Text))
    → joined b o s ≡ s
    → joined b (elim o [ none ↦ none | some (before, after) ↦ some (c ∷ before, after) ]) (c ∷ s)
      ≡ c ∷ s
joined_later b c s none h = refl
joined_later b c s (some (before, after)) h = ap (λ x. c ∷ x) h

pub joined-cut : (b : ℕ) (s : Text) → joined b (cut b s) s ≡ s
unfolding cut
joined-cut b [] = refl
joined-cut b (c ∷ s) = elim (Bool-cases (c == b)) [
  | inl e ↦ rw e (ap (λ x. x ∷ s) (sym ((==_iff c b).0 e)))
  | inr e ↦ rw e (joined_later b c s (cut b s) (joined-cut b s))
]

placeholder_lem :
    (n c : ℕ) (s : Text) (o : Option (Text × Text))
    → c ≡ b'{'
    → joined b'}' o s ≡ s
    → length s ≤ n
    → ((rest : Text) → length rest ≤ n → render_tokens (tokens_from n rest) ≡ rest)
    → render_tokens (elim o [
      | none ↦ unclosed (c ∷ s) ∷ []
      | some (body, rest) ↦ placeholder body ∷ tokens_from n rest
    ])
      ≡ c ∷ s
unfolding render_tokens
placeholder_lem n c s none e whole fits later = append-nil (c ∷ s)
placeholder_lem n c s (some (body, rest)) e whole fits later =
    let longer = ap length whole in
    let shorter : length rest ≤ n = omega (arith, length-append body (b'}' ∷ rest)) in
    ap (λ x. b'{' ∷ (body ++ b'}' ∷ x)) (later rest shorter)
    ∙ ap (λ x. b'{' ∷ x) whole
    ∙ ap (λ x. x ∷ s) (sym e)

render_tokens-tokens_from : (n : ℕ) (s : Text) → length s ≤ n → render_tokens (tokens_from n s) ≡ s
unfolding tokens_from render_tokens
render_tokens-tokens_from zero [] h = refl
render_tokens-tokens_from zero (c ∷ s) h = absurd (omega arith)
render_tokens-tokens_from (suc n) [] h = refl
render_tokens-tokens_from (suc n) (c ∷ s) h = elim (Bool-cases (c == b'{')) [
  | inr e ↦
      rw (e, tokens_from)
        (render_tokens-push_literal c (tokens_from n s)
          ∙ ap (λ x. c ∷ x) (render_tokens-tokens_from n s (omega arith)))
  | inl e ↦
      rw (e, tokens_from)
        (placeholder_lem n c s (cut b'}' s) ((==_iff c b'{').0 e) (joined-cut b'}' s) (omega arith)
          (λ rest shorter. render_tokens-tokens_from n rest shorter))
]

-- The fuel of `tokens` is enough: its tokens make up the whole path.
pub render_tokens-tokens : (path : Text) → render_tokens (tokens path) ≡ path
unfolding tokens
render_tokens-tokens path = render_tokens-tokens_from (length path) path (omega arith)
