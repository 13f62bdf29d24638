-- ===== src/Rfc6570/Encoding.antt =====
-- The two encodings of uritemplate/uritemplate.go.
use fastmcp.Prelude.{
  ℕ, ◌/◌, ◌%◌, ◌<◌, Text, Bool, true, false, ◌&&◌, ◌||◌, [], ◌∷◌, some, Bool-cases, inl, inr, ◌≡◌,
  refl, ap, ◌∙◌, arith, ◌==◌,
}
use fastmcp.Uri.{fm_unreserved, fm_encode, hex_digit, is_hex, unescape}
use fastmcp.Uri.Encoding.{IsBytes, unescape-fm_encode, is_hex-hex_digit}
use fastmcp.Rfc6570.{ut_encode, ut_decode, ut_unreserved, ut_reserved, is_copied, starts_hex}

ut_encode-fm_encode : (s : Text) → ut_encode false s ≡ fm_encode false s
unfolding ut_encode fm_encode
ut_encode-fm_encode [] = refl
ut_encode-fm_encode (c ∷ s) = elim (Bool-cases (fm_unreserved c)) [
  | inl e ↦ rw e (ap (λ x. c ∷ x) (ut_encode-fm_encode s))
  | inr e ↦
      rw e (ap (λ x. b'%' ∷ hex_digit (c / 16) ∷ hex_digit (c % 16) ∷ x) (ut_encode-fm_encode s))
]

-- What is encoded as a value of most operators, with the unreserved characters alone copied, is decoded to
-- the bytes that it was.
pub ut_decode-ut_encode : (s : Text) → IsBytes s → ut_decode (ut_encode false s) ≡ some s
unfolding ut_decode
ut_decode-ut_encode s h = ap unescape (ut_encode-fm_encode s) ∙ unescape-fm_encode false s h

hex_unreserved : (c : ℕ) → is_hex c ≡ true → fm_unreserved c ≡ true
hex_unreserved c h = ground arith

ut_encode-hex : (c : ℕ) (s : Text) → is_hex c ≡ true → ut_encode true (c ∷ s) ≡ c ∷ ut_encode true s
unfolding ut_encode
ut_encode-hex c s h = rw (hex_unreserved c h)

and_first : (a b : Bool) → (a && b) ≡ true → a ≡ true
and_first a b h = ground arith

and_second : (a b : Bool) → (a && b) ≡ true → b ≡ true
and_second a b h = ground arith

starts_hex-ut_encode : (s : Text) → starts_hex s ≡ true → starts_hex (ut_encode true s) ≡ true
starts_hex-ut_encode [] h = cc h
starts_hex-ut_encode (a ∷ []) h = cc h
starts_hex-ut_encode (a ∷ b ∷ s) h =
    let first : is_hex a ≡ true = and_first (is_hex a) (is_hex b) h in
    let second : is_hex b ≡ true = and_second (is_hex a) (is_hex b) h in
    rw (ut_encode-hex a (b ∷ s) first) (rw (ut_encode-hex b s second) h)

copied_later :
    (u r p h h' : Bool)
    → (h ≡ true → h' ≡ true)
    → (u || r || (p && h)) ≡ true
    → (u || r || (p && h')) ≡ true
copied_later u r p h h' later e = ground (arith, later)

copied-ut_encode :
    (c : ℕ) (s : Text) → is_copied true c s ≡ true → is_copied true c (ut_encode true s) ≡ true
copied-ut_encode c s e =
    copied_later (ut_unreserved c) (ut_reserved c) (c == b'%') (starts_hex s)
      (starts_hex (ut_encode true s)) (starts_hex-ut_encode s) e

ut_encode-copied :
    (c : ℕ) (s : Text) → is_copied true c s ≡ true → ut_encode true (c ∷ s) ≡ c ∷ ut_encode true s
unfolding ut_encode
ut_encode-copied c s h = rw h refl

ut_encode-escaped :
    (c : ℕ) (s : Text)
    → is_copied true c s ≡ false
    → ut_encode true (c ∷ s) ≡ b'%' ∷ hex_digit (c / 16) ∷ hex_digit (c % 16) ∷ ut_encode true s
unfolding ut_encode
ut_encode-escaped c s h = rw h refl

escaped_idem :
    (a b : ℕ) (s : Text)
    → a < 16
    → b < 16
    → ut_encode true s ≡ s
    → ut_encode true (b'%' ∷ hex_digit a ∷ hex_digit b ∷ s) ≡ b'%' ∷ hex_digit a ∷ hex_digit b ∷ s
escaped_idem a b s ha hb h =
    let high = is_hex-hex_digit a ha in
    let low = is_hex-hex_digit b hb in
    let copied : is_copied true b'%' (hex_digit a ∷ hex_digit b ∷ s) ≡ true = rw high low in
    ut_encode-copied b'%' (hex_digit a ∷ hex_digit b ∷ s) copied
    ∙ ap (λ x. b'%' ∷ x)
        (ut_encode-hex (hex_digit a) (hex_digit b ∷ s) high
          ∙ ap (λ x. hex_digit a ∷ x)
              (ut_encode-hex (hex_digit b) s low ∙ ap (λ x. hex_digit b ∷ x) h))

-- An encoding with the reserved characters copied is left as it is if it is encoded again, so text that is
-- encoded already goes through the operators + and # unharmed.
pub ut_encode_idem : (s : Text) → IsBytes s → ut_encode true (ut_encode true s) ≡ ut_encode true s
ut_encode_idem [] h = unfold ut_encode in refl
ut_encode_idem (c ∷ s) h = elim (Bool-cases (is_copied true c s)) [
  | inl e ↦ rw (ut_encode-copied c s e) (
      ut_encode-copied c (ut_encode true s) (copied-ut_encode c s e)
      ∙ ap (λ x. c ∷ x) (ut_encode_idem s h.1))
  | inr e ↦ rw (ut_encode-escaped c s e) (
      escaped_idem (c / 16) (c % 16) (ut_encode true s) (omega arith) (omega arith)
        (ut_encode_idem s h.1))
]
