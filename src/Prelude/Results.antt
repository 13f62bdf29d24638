-- ===== src/Prelude/Results.antt =====
-- What a Go call comes back with: a value, an error, or a panic that unwinds. An action also threads
-- the state that the call may change.
use mathlib.Core.Path.{◌≡◌}
use fastmcp.Prelude.Texts.{Text}

pub data Outcome {ℓ κ} (E : Type ℓ) (A : Type κ) : Type (ℓ ⊔ κ) where
  ok : A → Outcome E A
  err : E → Outcome E A
  panic : Text → Outcome E A

-- A call that does not panic: `(A, error)`, an error being its text.
pub data Result {ℓ} (A : Type ℓ) : Type ℓ where
  done : A → Result A
  failed : Text → Result A

abbrev pub Exec {ℓ} : Type ℓ → Type ℓ → Type ℓ → Type ℓ
Exec S E A = S → Outcome E A × S

module _ {ℓ} {S E A : Type ℓ} where
  abbrev pub pure : A → Exec S E A
  pure a s = (ok a, s)

  abbrev pub raise : E → Exec S E A
  raise e s = (err e, s)

  abbrev pub abort : Text → Exec S E A
  abort m s = (panic m, s)

  abbrev pub lift : Outcome E A → Exec S E A
  lift r s = (r, s)

module _ {ℓ} {S E A B : Type ℓ} where
  abbrev pub continue : Outcome E A → (A → Exec S E B) → Exec S E B
  continue (ok a) f s = f a s
  continue (err e) f s = (err e, s)
  continue (panic m) f s = (panic m, s)

  infixl 5 ◌>>=◌ ◌>>◌
  abbrev pub ◌>>=◌ : Exec S E A → (A → Exec S E B) → Exec S E B
  ◌>>=◌ m f s = continue (m s).0 f (m s).1

  abbrev pub ◌>>◌ : Exec S E A → Exec S E B → Exec S E B
  m >> n = m >>= λ _. n

-- `x, err := m(); if err != nil { on_err } else { on_ok }`, with another type of errors behind it.
module _ {ℓ} {S D E A B : Type ℓ} where
  abbrev pub branch : Outcome D A → (D → Exec S E B) → (A → Exec S E B) → Exec S E B
  branch (ok a) on_err on_ok s = on_ok a s
  branch (err d) on_err on_ok s = on_err d s
  branch (panic m) on_err on_ok s = (panic m, s)

  abbrev pub catch : Exec S D A → (D → Exec S E B) → (A → Exec S E B) → Exec S E B
  catch m on_err on_ok s = branch (m s).0 on_err on_ok (m s).1

-- Where a component keeps its own state within a larger one, behind its laws.
pub record Slot (S A : Type 0) : Type 0 where
  pub read : S → A
  pub write : A → S → S
  pub read-write : (a : A) (s : S) → read (write a s) ≡ a
  pub write-write : (a b : A) (s : S) → write b (write a s) ≡ write b s

-- an action on a part of the state
abbrev pub within : {S A E B : Type 0} → Slot S A → Exec A E B → Exec S E B
within slot action s = let (r, a) = action (slot.read s) in (r, slot.write a s)
