-- ===== src/Rfc6570/Match/Captures.antt =====
-- What a match of uritemplate/uritemplate.go finds, and when there is one.
use fastmcp.Prelude.{
  starts_rune, on_rune, on_rune-some, Text, has_prefix, has_prefix-append, drop-append, length,
  drop, Bool, true, ◌++◌, List, [], ◌∷◌, Option, none, some, All, Option-cases, Bool-cases, inl,
  inr, ◌≡◌, ◌≢◌, ◌↔◌, refl, sym, ap, ◌∙◌,
}
use mathlib.Core.List.{append_assoc}
use fastmcp.Server.Template.Matching.{has_prefix-split}
use fastmcp.Rfc6570.Match.{MatchPiece, fixed, lazy, in_class, try_lazy, submatch}

-- The URI is the fixed texts and the captures, which are not empty and of their class, one after the other.
abbrev pub Reads : List MatchPiece → List Text → Text → Type 0
Reads [] [] s = s ≡ []
Reads [] (t ∷ caps) s = ⊥
Reads (fixed t ∷ ps) caps s = (rest : Text) × (s ≡ t ++ rest) × Reads ps caps rest
Reads (lazy any ∷ ps) [] s = ⊥
Reads (lazy any ∷ ps) (t ∷ caps) s =
    (rest : Text) × (s ≡ t ++ rest)
    × (t ≢ [])
    × All (λ c. in_class any c ≡ true) t
    × (starts_rune rest ≡ true)
    × Reads ps caps rest

-- What a lazy group found.
abbrev Found : Bool → (Text → Option (List Text)) → Text → Text → List Text → Type 0
Found any f taken s caps =
    (t : Text) × (rest : Text) × (later : List Text) × (s ≡ t ++ rest)
    × (t ≢ [])
    × All (λ c. in_class any c ≡ true) t
    × (f rest ≡ some later)
    × (caps ≡ (taken ++ t) ∷ later)

try_lazy-Found :
    (any : Bool) (f : Text → Option (List Text)) (taken s : Text) (caps : List Text)
    → try_lazy any f taken s ≡ some caps
    → Found any f taken s caps
unfolding try_lazy
try_lazy-Found any f taken [] caps h = let clash : ⊥ = cc h in absurd clash
try_lazy-Found any f taken (c ∷ s) caps h = elim (Bool-cases (in_class any c)) [
  | inr e ↦ let clash : ⊥ = cc (rw (e, try_lazy) at h) in absurd clash
  | inl e ↦ elim (Option-cases (f s)) [
    | inr (later, m) ↦
        let same : (taken ++ c ∷ []) ∷ later ≡ caps = cc (rw m at (rw (e, try_lazy) at h)) in
        (c ∷ [], s, later, refl, λ x. cc x, (e, tt), m, sym same)
    | inl m ↦
        let (t, rest, later, at, full, ok, found, same) =
          try_lazy-Found any f (taken ++ c ∷ []) s caps (rw m at (rw (e, try_lazy) at h)) in
        (
          c ∷ t,
          rest,
          later,
          ap (λ x. c ∷ x) at,
          λ x. cc x,
          (e, ok),
          found,
          same ∙ ap (λ x. x ∷ later) (append_assoc taken (c ∷ []) t),
        )
  ]
]

try_lazy_complete :
    (any : Bool) (f : Text → Option (List Text)) (taken t rest : Text)
    → t ≢ []
    → All (λ c. in_class any c ≡ true) t
    → f rest ≢ none
    → try_lazy any f taken (t ++ rest) ≢ none
unfolding try_lazy
try_lazy_complete any f taken [] rest full ok found = absurd (full refl)
try_lazy_complete any f taken (c ∷ []) rest full ok found = elim (Option-cases (f rest)) [
  | inl m ↦ absurd (found m)
  | inr (later, m) ↦ rw (ok.0, try_lazy) (rw m (λ x. cc x))
]
try_lazy_complete any f taken (c ∷ d ∷ t) rest full ok found =
    elim (Option-cases (f (d ∷ (t ++ rest)))) [
      | inr (later, m) ↦ rw (ok.0, try_lazy) (rw m (λ x. cc x))
      | inl m ↦
          rw (ok.0, try_lazy)
            (rw m (try_lazy_complete any f (taken ++ c ∷ []) (d ∷ t) rest (λ x. cc x) ok.1 found))
    ]

submatch-Reads :
    (ps : List MatchPiece) (s : Text) (caps : List Text)
    → submatch ps s ≡ some caps
    → Reads ps caps s
unfolding submatch
submatch-Reads [] [] [] h = refl
submatch-Reads [] [] (t ∷ caps) h = absurd (cc h)
submatch-Reads [] (c ∷ s) caps h = let clash : ⊥ = cc h in absurd clash
submatch-Reads (fixed t ∷ ps) s caps h = elim (Bool-cases (has_prefix s t)) [
  | inl e ↦ (
    drop (length t) s,
    has_prefix-split s t e,
    submatch-Reads ps (drop (length t) s) caps (rw (e, submatch) at h),
  )
  | inr e ↦ let clash : ⊥ = cc (rw (e, submatch) at h) in absurd clash
]
submatch-Reads (lazy any ∷ ps) s caps h =
    let (t, rest, later, at, full, ok, found, same) =
      try_lazy-Found any (on_rune (submatch ps)) [] s caps h in
    let (whole, m) = on_rune-some (submatch ps) rest later found in
    rw same (rest, at, full, ok, whole, submatch-Reads ps rest later m)

submatch_complete :
    (ps : List MatchPiece) (s : Text) (caps : List Text) → Reads ps caps s → submatch ps s ≢ none
unfolding submatch
submatch_complete [] s [] h = rw h (λ x. cc x)
submatch_complete [] s (t ∷ caps) h = absurd h
submatch_complete (fixed t ∷ ps) s caps (rest, at, h) =
    rw at
      (rw (has_prefix-append t rest) (rw (drop-append t rest) (submatch_complete ps rest caps h)))
submatch_complete (lazy any ∷ ps) s [] h = absurd h
submatch_complete (lazy any ∷ ps) s (t ∷ caps) (rest, at, full, ok, whole, h) = rw at (
    try_lazy_complete any (on_rune (submatch ps)) [] t rest full ok
      (rw whole (submatch_complete ps rest caps h)))

-- A URI matches exactly if it reads as the fixed texts and, for each lazy group, a text that is not empty
-- of whole runes and of the group's class, one after the other.
pub submatch_iff :
    (ps : List MatchPiece) (uri : Text)
    → (submatch ps uri ≢ none) ↔ ((caps : List Text) × Reads ps caps uri)
submatch_iff ps uri = (
  λ h. elim (Option-cases (submatch ps uri)) [
    | inl e ↦ absurd (h e)
    | inr (caps, e) ↦ (caps, submatch-Reads ps uri caps e)
  ],
  λ h. submatch_complete ps uri h.0 h.1,
)
