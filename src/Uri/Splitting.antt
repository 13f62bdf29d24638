-- ===== src/Uri/Splitting.antt =====
-- strings.Split at a byte: joining the pieces gives the text back.
use fastmcp.Prelude.{
  ℕ, Text, All, ◌≢◌, arith, subst, List, [], ◌∷◌, ◌++◌, ◌≡◌, refl, sym, ap, ◌∙◌, Bool-cases, inl,
  inr, ◌==◌, ==_iff,
}
use fastmcp.Uri.{split, head_cons}

abbrev pub join_with : ℕ → List Text → Text
join_with b [] = []
join_with b (t ∷ []) = t
join_with b (t ∷ u ∷ ts) = t ++ b ∷ join_with b (u ∷ ts)

join_with-head_cons :
    (b c : ℕ) (t : Text) (ts : List Text)
    → join_with b (head_cons c (t ∷ ts)) ≡ c ∷ join_with b (t ∷ ts)
join_with-head_cons b c t [] = refl
join_with-head_cons b c t (u ∷ ts) = refl

pub head_and_tail : (b : ℕ) (s : Text) → (t : Text) × (ts : List Text) × (split b s ≡ t ∷ ts)
unfolding split
head_and_tail b [] = ([], [], refl)
head_and_tail b (c ∷ s) = elim (Bool-cases (c == b)) [
  | inl e ↦ rw e ([], split b s, refl)
  | inr e ↦ let (t, ts, at) = head_and_tail b s in rw e (c ∷ t, ts, ap (head_cons c) at)
]

pub join_with-split : (b : ℕ) (s : Text) → join_with b (split b s) ≡ s
unfolding split
join_with-split b [] = refl
join_with-split b (c ∷ s) =
    let (t, ts, at) = head_and_tail b s in
    let whole : join_with b (t ∷ ts) ≡ s = rw (sym at) (join_with-split b s) in
    elim (Bool-cases (c == b)) [
      | inl e ↦ rw e (rw at (ap (λ x. b ∷ x) whole ∙ ap (λ x. x ∷ s) (sym ((==_iff c b).0 e))))
      | inr e ↦ rw e (rw at (join_with-head_cons b c t ts ∙ ap (λ x. c ∷ x) whole))
    ]

-- no piece has the byte, and the pieces are these
pub split-pieces : (b : ℕ) (s : Text) → All (All (λ c. c ≢ b)) (split b s)
unfolding split
split-pieces b [] = (tt, tt)
split-pieces b (c ∷ s) =
    let (t, ts, at) = head_and_tail b s in
    let rest : All (All (λ c. c ≢ b)) (t ∷ ts) =
      subst (All (All (λ c. c ≢ b))) at (split-pieces b s) in
    elim (Bool-cases (c == b)) [
      | inl e ↦ rw e (tt, split-pieces b s)
      | inr e ↦ rw e (rw at (((λ q. ground (arith, ==_iff c b)), rest.0), rest.1))
    ]
