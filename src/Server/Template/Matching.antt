-- ===== src/Server/Template/Matching.antt =====
-- Matching a URI against a template, of resource.go: the backtracking matcher against the reading of a
-- template as a concatenation of literal text and path segments.
use fastmcp.Prelude.{
  starts_rune, on_rune, on_rune-some, ℕ, zero, suc, ◌≤◌, ◌<◌, Text, has_prefix, length, take, drop,
  take-append-drop, has_prefix-append, drop-append, All, true, List, [], ◌∷◌, ◌++◌, none, some,
  Option-cases, Bool-cases, inl, inr, ◌≡◌, ◌≢◌, ◌↔◌, refl, sym, ap, ◌∙◌, arith, ◌==◌, ==_iff,
}
use fastmcp.Prelude.Dict.{Dict}
use fastmcp.Server.Template.{
  Piece, lit, var, segment_length, Matcher, try_group, find_submatch, names, assign, match_template,
}

-- One or more characters, none of them a slash.
abbrev pub IsSegment : Text → Type 0
IsSegment t = (t ≢ []) × All (λ c. c ≢ b'/') t

-- The text is the literal texts and the captures, one after the other, each capture of whole runes.
abbrev pub Fits : List Piece → List Text → Text → Type 0
Fits [] [] s = s ≡ []
Fits [] (seg ∷ caps) s = ⊥
Fits (lit t ∷ ps) caps s = (rest : Text) × (s ≡ t ++ rest) × Fits ps caps rest
Fits (var name ∷ ps) [] s = ⊥
Fits (var name ∷ ps) (seg ∷ caps) s =
    (rest : Text) × (s ≡ seg ++ rest)
    × IsSegment seg
    × (starts_rune rest ≡ true)
    × Fits ps caps rest

pub has_prefix-split : (s t : Text) → has_prefix s t ≡ true → s ≡ t ++ drop (length t) s
has_prefix-split s [] h = refl
has_prefix-split [] (y ∷ ys) h = cc
has_prefix-split (x ∷ xs) (y ∷ ys) h = ground (arith, has_prefix-split xs ys)

take_IsSegment : (n : ℕ) (s : Text) → n ≤ segment_length s → All (λ c. c ≢ b'/') (take n s)
unfolding segment_length
take_IsSegment zero s h = tt
take_IsSegment (suc n) [] h = tt
take_IsSegment (suc n) (c ∷ s) h = elim (Bool-cases (c == b'/')) [
  | inl slash ↦ absurd (ground arith)
  | inr plain ↦ (ground arith, take_IsSegment n s (ground arith))
]

length-le-segment_length : (t s : Text) → All (λ c. c ≢ b'/') t → length t ≤ segment_length (t ++ s)
unfolding segment_length
length-le-segment_length [] s h = omega arith
length-le-segment_length (c ∷ t) s h = ground (arith, length-le-segment_length t s h.1)

-- What a group captured: the first characters, within the segment, with a match of the rest.
abbrev Captured : Matcher → ℕ → Text → List Text → Type 0
Captured f n s caps =
    (k : ℕ) × (rest : List Text) × (k < n)
    × (f (drop (suc k) s) ≡ some rest)
    × (caps ≡ take (suc k) s ∷ rest)

try_group_sound :
    (f : Matcher) (n : ℕ) (s : Text) (caps : List Text)
    → try_group f n s ≡ some caps
    → Captured f n s caps
unfolding try_group
try_group_sound f zero s caps h = cc
try_group_sound f (suc n) s caps h = elim (Option-cases (f (drop (suc n) s))) [
  | inl e ↦
      let (k, rest, lt, m, same) = try_group_sound f n s caps (rw (e, try_group) at h) in
      (k, rest, omega arith, m, same)
  | inr (rest, e) ↦ (n, rest, omega arith, e, ground (arith, rw (e, try_group) at h))
]

try_group_complete :
    (f : Matcher) (n k : ℕ) (s : Text) (rest : List Text)
    → k < n
    → f (drop (suc k) s) ≡ some rest
    → try_group f n s ≢ none
unfolding try_group
try_group_complete f zero k s rest lt m = absurd (omega arith)
try_group_complete f (suc n) k s rest lt m = elim (Option-cases (f (drop (suc n) s))) [
  | inl e ↦ elim (Bool-cases (k == n)) [
    | inl same ↦ absurd (cc (ap (λ j. f (drop (suc j) s)) ((==_iff k n).0 same)))
    | inr other ↦ rw (e, try_group) (try_group_complete f n k s rest (ground arith) m)
  ]
  | inr (caps, e) ↦ rw (e, try_group) (cc)
]

IsSegment-take : (k : ℕ) (s : Text) → k < segment_length s → IsSegment (take (suc k) s)
unfolding segment_length
IsSegment-take k [] h = elim h [ ]
IsSegment-take k (c ∷ s) h = (λ e. cc, take_IsSegment (suc k) (c ∷ s) h)

pub find_submatch_sound :
    (ps : List Piece) (s : Text) (caps : List Text)
    → find_submatch ps s ≡ some caps
    → Fits ps caps s
unfolding find_submatch
find_submatch_sound [] [] [] h = refl
find_submatch_sound [] [] (seg ∷ caps) h = absurd (cc)
find_submatch_sound [] (c ∷ s) caps h = absurd (cc)
find_submatch_sound (lit t ∷ ps) s caps h = elim (Bool-cases (has_prefix s t)) [
  | inl e ↦ (
    drop (length t) s,
    has_prefix-split s t e,
    find_submatch_sound ps (drop (length t) s) caps (rw e at h),
  )
  | inr e ↦ absurd (cc (rw e at h))
]
find_submatch_sound (var name ∷ ps) s [] h =
    let (k, rest, lt, m, same) =
      try_group_sound (on_rune (find_submatch ps)) (segment_length s) s [] h in
    absurd (cc same)
find_submatch_sound (var name ∷ ps) s (seg ∷ caps) h =
    let (k, rest, lt, m, same) =
      try_group_sound (on_rune (find_submatch ps)) (segment_length s) s (seg ∷ caps) h in
    let (whole, m2) = on_rune-some (find_submatch ps) (drop (suc k) s) rest m in
    let same_cap : seg ≡ take (suc k) s = cc same in
    let same_caps : caps ≡ rest = cc same in
    (
      drop (suc k) s,
      sym (take-append-drop (suc k) s) ∙ ap (λ x. x ++ drop (suc k) s) (sym same_cap),
      rw same_cap (IsSegment-take k s lt),
      whole,
      find_submatch_sound ps (drop (suc k) s) caps (rw same_caps m2),
    )

pub find_submatch_complete :
    (ps : List Piece) (s : Text) (caps : List Text)
    → Fits ps caps s
    → (found : List Text) × (find_submatch ps s ≡ some found)
unfolding find_submatch
find_submatch_complete [] s [] h = ([], rw h)
find_submatch_complete [] s (seg ∷ caps) h = absurd h
find_submatch_complete (lit t ∷ ps) s caps (rest, e, h) =
    let (found, m) = find_submatch_complete ps rest caps h in
    (found, rw e (rw (has_prefix-append t rest, drop-append t rest) m))
find_submatch_complete (var name ∷ ps) s [] h = absurd h
find_submatch_complete (var name ∷ ps) s ([] ∷ caps) (rest, e, g, r, h) = absurd (g.0 refl)
find_submatch_complete (var name ∷ ps) s ((c ∷ seg) ∷ caps) (rest, e, g, r, h) =
    let (found, m) = find_submatch_complete ps rest caps h in
    let run : try_group (on_rune (find_submatch ps)) (segment_length s) s ≢ none =
      try_group_complete (on_rune (find_submatch ps)) (segment_length s) (length seg) s found
        (rw e (length-le-segment_length (c ∷ seg) rest g.1))
        (rw e (rw (drop-append (c ∷ seg) rest) (rw r m))) in
    elim (Option-cases (try_group (on_rune (find_submatch ps)) (segment_length s) s)) [
      | inl missed ↦ absurd (run missed)
      | inr hit ↦ hit
    ]

-- A URI matches a template exactly if it is the template's literal text with a path segment, of whole
-- runes, not empty and without a slash, in the place of every variable.
pub match_template_iff :
    (re : List Piece) (uri : Text)
    → (match_template re uri ≢ none) ↔ ((caps : List Text) × Fits re caps uri)
unfolding match_template
match_template_iff re uri = (
  λ h. elim (Option-cases (find_submatch re uri)) [
    | inl e ↦ absurd (h (rw (e, match_template)))
    | inr (caps, e) ↦ (caps, find_submatch_sound re uri caps e)
  ],
  λ h e. let (found, m) = find_submatch_complete re uri h.0 h.1 in cc (rw (m, match_template) at e),
)

-- The parameters of a match are segments that make up the URI with the template's literal text, each
-- under the name of its variable.
pub match_template_captures :
    (re : List Piece) (uri : Text) (vars : Dict Text)
    → match_template re uri ≡ some vars
    → (caps : List Text) × Fits re caps uri × (vars ≡ assign (names re) caps [])
unfolding match_template
match_template_captures re uri vars h = elim (Option-cases (find_submatch re uri)) [
  | inl e ↦ absurd (cc (rw (e, match_template) at h))
  | inr (caps, e) ↦ (caps, find_submatch_sound re uri caps e, cc (rw (e, match_template) at h))
]
