-- ===== src/Prelude/Texts.antt =====
-- A Go string is its bytes. Literals are ASCII.
use Prim.Native.Nat.{ℕ}
use Prim.Native.Char.{code}
use Prim.Native.String.{String}
use mathlib.Core.Path.{◌≡◌, refl}
use mathlib.Core.Logic.{◌↔◌, ◌≢◌, inl, inr}
use mathlib.Core.Bool.{Bool, true, false, not, ◌&&◌}
use mathlib.Core.Option.{Option, none, some}
use mathlib.Core.List.{List, [], ◌∷◌, ◌++◌}
use native.Mathlib.Omega.{arith}
use fastmcp.Prelude.Tests.{◌==◌, ltb, leb, if◌then◌else◌, Bool-cases}

abbrev pub Text : Type 0
Text = List ℕ

abbrev pub txt : String → Text
txt String.[] = []
txt (String.◌∷◌ c s) = code c ∷ txt s

unfoldable pub text_eq : Text → Text → Bool
text_eq [] [] = true
text_eq [] (y ∷ ys) = false
text_eq (x ∷ xs) [] = false
text_eq (x ∷ xs) (y ∷ ys) = x == y && text_eq xs ys

abbrev pub is_empty {ℓ} : {A : Type ℓ} → List A → Bool
is_empty [] = true
is_empty (x ∷ xs) = false

pub text_eq_iff : (s t : Text) → (text_eq s t ≡ true) ↔ (s ≡ t)
unfolding text_eq
text_eq_iff [] [] = ground arith
text_eq_iff [] (y ∷ ys) = ground arith
text_eq_iff (x ∷ xs) [] = ground arith
text_eq_iff (x ∷ xs) (y ∷ ys) = ground (arith, text_eq_iff xs ys)

pub text_eq_refl : (s : Text) → text_eq s s ≡ true
text_eq_refl s = (text_eq_iff s s).1 refl

pub text_eq_ne : (s t : Text) → s ≢ t → text_eq s t ≡ false
text_eq_ne s t h = ground (arith, text_eq_iff s t)

-- strings.HasPrefix
abbrev pub has_prefix : Text → Text → Bool
has_prefix s [] = true
has_prefix [] (y ∷ ys) = false
has_prefix (x ∷ xs) (y ∷ ys) = x == y && has_prefix xs ys

pub has_prefix-append : (t s : Text) → has_prefix (t ++ s) t ≡ true
has_prefix-append [] s = refl
has_prefix-append (x ∷ t) s = ground (arith, has_prefix-append t s)

-- In a text that is valid UTF-8 a rune starts at every byte that does not continue one.
abbrev pub starts_rune : Text → Bool
starts_rune [] = true
starts_rune (c ∷ s) = not (leb 128 c && ltb c 192)

-- what is matched from a rune's start on
abbrev pub on_rune {ℓ} : {A : Type ℓ} → (Text → Option A) → Text → Option A
on_rune f s = if starts_rune s then f s else none

pub on_rune-some {ℓ} :
    {A : Type ℓ} (f : Text → Option A) (s : Text) (a : A)
    → on_rune f s ≡ some a
    → (starts_rune s ≡ true) × (f s ≡ some a)
on_rune-some f s a h = elim (Bool-cases (starts_rune s)) [
  | inl e ↦ (e, rw e at h)
  | inr e ↦ let clash : ⊥ = cc (rw e at h) in absurd clash
]
