-- ===== src/JsonSchema/Validate/Passing.antt =====
-- jsonschema/validate.go: when the combinations of checks pass.
use fastmcp.Prelude.{
  Text, Bool, true, false, not, ◌&&◌, Option, none, some, ◌≡◌, ◌≢◌, ◌↔◌, ◌⊎◌, inl, inr, refl,
  is_some, if◌then◌else◌,
}
use fastmcp.Json.{Json}
use fastmcp.JsonSchema.Validate.Keywords.{Violation, ValidationError, ◌or_then◌, require, on_key}
use fastmcp.JsonSchema.Validate.Satisfies.{When, Given}

abbrev pub Passes : Option ValidationError → Type 0
Passes o = o ≡ none

pub Passes-or_then : (a b : Option ValidationError) → Passes (a or_then b) ↔ Passes a × Passes b
Passes-or_then (some e) b = (λ h. cc h, λ h. cc (h.0))
Passes-or_then none b = (λ h. (refl, h), λ h. h.1)

pub Passes-both :
    {P Q : Type 0} (a b : Option ValidationError)
    → Passes a ↔ P
    → Passes b ↔ Q
    → Passes (a or_then b) ↔ P × Q
Passes-both a b p q = (
  λ h. let both = (Passes-or_then a b).0 h in (p.0 both.0, q.0 both.1),
  λ h. (Passes-or_then a b).1 (p.1 h.0, q.1 h.1),
)

pub Passes-require :
    {P : Type 0} (b : Bool) (path : Text) (what : Violation)
    → (b ≡ true) ↔ P
    → Passes (require b path what) ↔ P
Passes-require true path what p = (λ h. p.0 refl, λ h. refl)
Passes-require false path what p = (λ h. cc h, λ h. cc (p.1 h))

pub Passes-on_key {ℓ} :
    {A : Type ℓ} (o : Option A) {f : A → Option ValidationError} {P : A → Type 0}
    → ((a : A) → Passes (f a) ↔ P a)
    → Passes (on_key o f) ↔ Given o P
Passes-on_key none h = (λ e. tt, λ e. refl)
Passes-on_key (some a) h = h a

-- a test that stops at the first success
pub true-or :
    {P Q : Type 0} (b r : Bool)
    → (b ≡ true) ↔ P
    → (r ≡ true) ↔ Q
    → ((if b then true else r) ≡ true) ↔ (P ⊎ Q)
true-or true r p q = (λ h. inl (p.0 refl), λ h. refl)
true-or false r p q = (λ h. inr (q.0 h), λ h. elim h [ inl x ↦ cc (p.1 x) | inr y ↦ q.1 y ])

pub itself : {P : Type 0} → P ↔ P
itself = (λ h. h, λ h. h)

pub never-true : (false ≡ true) ↔ ⊥
never-true = (λ h. cc h, λ h. absurd h)

pub true-not : (b : Bool) → (not b ≡ true) ↔ (b ≡ false)
true-not true = (λ h. cc h, λ h. cc h)
true-not false = (λ h. refl, λ h. refl)

pub true-and_not : (a b : Bool) → ((not a && not b) ≡ true) ↔ ((a ≡ false) × (b ≡ false))
true-and_not true b = (λ h. cc h, λ h. cc (h.0))
true-and_not false true = (λ h. cc h, λ h. cc (h.1))
true-and_not false false = (λ h. (refl, refl), λ h. refl)

-- a check under a condition
pub true-when :
    {P : Type 0} (c b : Bool) → (b ≡ true) ↔ P → ((if c then b else true) ≡ true) ↔ When c P
true-when true b p = p
true-when false b p = (λ h. tt, λ h. refl)

pub Passes-when :
    {P : Type 0} (c : Bool) (o : Option ValidationError)
    → Passes o ↔ P
    → Passes (if c then o else none) ↔ When c P
Passes-when true o p = p
Passes-when false o p = (λ h. tt, λ h. refl)

pub is_some_iff : (o : Option Json) → (is_some o ≡ true) ↔ (o ≢ none)
is_some_iff none = (λ h. cc h, λ h. absurd (h refl))
is_some_iff (some v) = (λ h x. cc x, λ h. refl)
