-- ===== src/Auth/Bearer/Quoting.antt =====
-- The quoted parameters of a challenge of auth/middleware.go.
use fastmcp.Prelude.{
  ℕ, Text, true, false, [], ◌∷◌, ◌++◌, Option, none, some, ◌≡◌, refl, sym, ap, ◌∙◌, arith,
  Bool-cases, inl, inr, if◌then◌else◌, ◌==◌, ==_iff,
}
use fastmcp.Auth.Bearer.{replace_byte, escape_quoted}

abbrev pub head_to : ℕ → Option (Text × Text) → Option (Text × Text)
head_to c none = none
head_to c (some (s, rest)) = some (c ∷ s, rest)

-- A quoted-string of RFC 7230 behind its opening quote: its value, and what follows it.
unfoldable pub read_quoted : Text → Option (Text × Text)
read_quoted [] = none
read_quoted (c ∷ []) = if c == b'"' then some ([], []) else none
read_quoted (c ∷ d ∷ s) = elim (c == b'"') [
  | true ↦ some ([], d ∷ s)
  | false ↦ elim (c == b'\\') [
    | true ↦ head_to d (read_quoted s)
    | false ↦ head_to c (read_quoted (d ∷ s))
  ]
]

abbrev escape_one : ℕ → Text → Text
escape_one c s =
    if c == b'\\' then b'\\' ∷ b'\\' ∷ s else if c == b'"' then b'\\' ∷ b'"' ∷ s else c ∷ s

escape_quoted-cons : (c : ℕ) (s : Text) → escape_quoted (c ∷ s) ≡ escape_one c (escape_quoted s)
unfolding escape_quoted replace_byte
escape_quoted-cons c s = elim (Bool-cases (c == b'\\')) [
  | inl e ↦ rw e refl
  | inr e ↦ rw e (elim (Bool-cases (c == b'"')) [ inl q ↦ rw q refl | inr q ↦ rw q refl ])
]

read_quoted-step :
    (c d : ℕ) (s : Text)
    → (c == b'"') ≡ false
    → (c == b'\\') ≡ false
    → read_quoted (c ∷ d ∷ s) ≡ head_to c (read_quoted (d ∷ s))
unfolding read_quoted
read_quoted-step c d s q b = ground (arith, q, b)

read_quoted-plain :
    (c : ℕ) (s : Text)
    → (c == b'"') ≡ false
    → (c == b'\\') ≡ false
    → read_quoted (c ∷ s) ≡ head_to c (read_quoted s)
unfolding read_quoted
read_quoted-plain c [] q b = rw q refl
read_quoted-plain c (d ∷ s) q b = read_quoted-step c d s q b

read_quoted-escaped : (d : ℕ) (s : Text) → read_quoted (b'\\' ∷ d ∷ s) ≡ head_to d (read_quoted s)
unfolding read_quoted
read_quoted-escaped d s = refl

-- A reader of quoted strings gets from the escaped text, closed by a quote, the text itself, and stops
-- at that quote.
pub read_quoted-escape_quoted :
    (s rest : Text) → read_quoted (escape_quoted s ++ b'"' ∷ rest) ≡ some (s, rest)
read_quoted-escape_quoted [] [] = unfold read_quoted escape_quoted replace_byte in refl
read_quoted-escape_quoted [] (c ∷ rest) = unfold read_quoted escape_quoted replace_byte in refl
read_quoted-escape_quoted (c ∷ s) rest =
    let ih = read_quoted-escape_quoted s rest in
    rw (escape_quoted-cons c s) (elim (Bool-cases (c == b'\\')) [
      | inl e ↦ rw e (
          read_quoted-escaped b'\\' _
          ∙ ap (head_to b'\\') ih
          ∙ ap (λ x. some (x ∷ s, rest)) (sym ((==_iff _ _).0 e)))
      | inr e ↦ rw e (elim (Bool-cases (c == b'"')) [
        | inl q ↦ rw q (
            read_quoted-escaped b'"' _
            ∙ ap (head_to b'"') ih
            ∙ ap (λ x. some (x ∷ s, rest)) (sym ((==_iff _ _).0 q)))
        | inr q ↦ rw q (read_quoted-plain c _ q e ∙ ap (head_to c) ih)
      ])
    ])
