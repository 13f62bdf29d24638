-- ===== src/Mcplog/Names.antt =====
-- Names, JSON and severities of the levels of mcplog/mcplog.go.
use fastmcp.Prelude.{
  ℕ, zero, suc, ◌+◌, ◌≤◌, Text, text_eq, text_eq_iff, true, length, ◌-◌, List, [], ◌∷◌, Option,
  none, some, done, ◌≡◌, ◌↔◌, refl, ap, ◌∙◌, sym, arith, Bool-cases, inl, inr,
}
use fastmcp.Mcplog.{
  Level, is_valid, name_at, level_names, level_string, severity, to_lower_ascii, index_of,
  parse_level, marshal_level, unmarshal_level, level_from_severity,
}

abbrev Each : (Level → Type 0) → Type 0
Each P = P 0 × P 1 × P 2 × P 3 × P 4 × P 5 × P 6 × P 7

each_level : (P : Level → Type 0) (l : Level) → is_valid l ≡ true → Each P → P l
each_level P zero h p = p.0
each_level P (suc zero) h p = p.1
each_level P (suc (suc zero)) h p = p.2
each_level P (suc (suc (suc zero))) h p = p.3
each_level P (suc (suc (suc (suc zero)))) h p = p.4
each_level P (suc (suc (suc (suc (suc zero))))) h p = p.5
each_level P (suc (suc (suc (suc (suc (suc zero)))))) h p = p.6
each_level P (suc (suc (suc (suc (suc (suc (suc zero))))))) h p = p.7
each_level P (suc (suc (suc (suc (suc (suc (suc (suc n)))))))) h p = absurd (ground arith)

abbrev pub RoundTrips : Level → Type 0
RoundTrips l =
    (parse_level (level_string l) ≡ some l)
    × ((text : Text) × (marshal_level l ≡ done text) × (unmarshal_level text ≡ done l))
    × (level_from_severity (severity l) ≡ l)

-- Each of the eight levels comes back from its name, from its JSON and from its severity.
pub level_round_trip : (l : Level) → is_valid l ≡ true → RoundTrips l
unfolding parse_level level_string marshal_level unmarshal_level level_from_severity severity
    text_eq
level_round_trip l h = each_level RoundTrips l h (
  (refl, (_, refl, refl), refl),
  (refl, (_, refl, refl), refl),
  (refl, (_, refl, refl), refl),
  (refl, (_, refl, refl), refl),
  (refl, (_, refl, refl), refl),
  (refl, (_, refl, refl), refl),
  (refl, (_, refl, refl), refl),
  (refl, (_, refl, refl), refl),
)

abbrev or_zero : Option ℕ → ℕ
or_zero none = 0
or_zero (some n) = n

index_of_bounds :
    (s : Text) (ns : List Text) (i l : ℕ)
    → index_of s ns i ≡ some l
    → (i ≤ l) × (l + 1 ≤ i + length ns) × (s ≡ name_at ns (l - i))
unfolding index_of
index_of_bounds s [] i l h = let clash : ⊥ = cc h in absurd clash
index_of_bounds s (n ∷ ns) i l h = elim (Bool-cases (text_eq n s)) [
  | inl e ↦
      let at : i ≡ l = ap or_zero (rw e at h) in
      let first : l - i ≡ 0 = omega arith in
      (omega arith, omega arith, rw first (sym ((text_eq_iff n s).0 e)))
  | inr e ↦
      let (low, high, found) = index_of_bounds s ns (i + 1) l (rw e at h) in
      let next : l - i ≡ suc (l - (i + 1)) = omega arith in
      (omega arith, omega arith, rw next found)
]

index_of_name : (l : Level) → is_valid l ≡ true → index_of (level_string l) level_names 0 ≡ some l
unfolding level_string index_of text_eq
index_of_name l h =
    each_level (λ l. index_of (level_string l) level_names 0 ≡ some l) l h
      (refl, refl, refl, refl, refl, refl, refl, refl)

-- ParseLevel accepts a name as a level exactly if the level is one of the eight and the name, with its
-- ASCII capitals made small, is the level's.
pub parse_level_iff :
    (name : Text) (l : Level)
    → (parse_level name ≡ some l) ↔ ((is_valid l ≡ true) × (to_lower_ascii name ≡ level_string l))
unfolding parse_level
parse_level_iff name l = (
  λ h.
      let (low, high, e) = index_of_bounds (to_lower_ascii name) level_names 0 l h in
      let valid : is_valid l ≡ true = ground arith in
      let same : l - 0 ≡ l = omega arith in (valid, unfold level_string in rw valid (rw same at e)),
  λ h. ap (λ s. index_of s level_names 0) h.1 ∙ index_of_name l h.0,
)
