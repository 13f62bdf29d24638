-- ===== src/Uri/Encoding.antt =====
-- Percent encoding of uritemplate/fastmcp.go: what it yields, and that decoding undoes it.
use fastmcp.Prelude.{
  ℕ, ◌/◌, ◌%◌, ◌*◌, ◌+◌, ◌<◌, Text, All, Bool, true, false, [], ◌∷◌, some, Bool-cases, inl, inr,
  ◌≡◌, ◌⊎◌, is_empty, refl, ap, ◌∙◌, arith, ◌==◌, ◌&&◌,
}
use fastmcp.Uri.{
  fm_unreserved, hex_digit, is_kept, fm_encode, is_hex, unhex, cons_to, unescape, path_unescape,
  or_raw,
}

abbrev pub IsBytes : Text → Type 0
IsBytes s = All (λ c. c < 256) s

unescape-plain :
    (c : ℕ) (s : Text) → (c == b'%') ≡ false → unescape (c ∷ s) ≡ cons_to c (unescape s)
unfolding unescape
unescape-plain c [] h = rw (h, unescape)
unescape-plain c (a ∷ []) h = rw (h, unescape)
unescape-plain c (a ∷ b ∷ s) h = rw (h, unescape)

unescape-hex :
    (a b : ℕ) (s : Text)
    → is_hex a && is_hex b ≡ true
    → unescape (b'%' ∷ a ∷ b ∷ s) ≡ cons_to (unhex a * 16 + unhex b) (unescape s)
unfolding unescape
unescape-hex a b s h = rw (h, unescape)

pub is_hex-hex_digit : (d : ℕ) → d < 16 → is_hex (hex_digit d) ≡ true
is_hex-hex_digit d h = ground arith

unhex-hex_digit : (d : ℕ) → d < 16 → unhex (hex_digit d) ≡ d
unhex-hex_digit d h = ground arith

kept_plain : (w : Bool) (c : ℕ) → is_kept w c ≡ true → (c == b'%') ≡ false
kept_plain w c h = ground arith

pub unescape-fm_encode : (w : Bool) (s : Text) → IsBytes s → unescape (fm_encode w s) ≡ some s
unfolding fm_encode
unescape-fm_encode w [] h = unfold unescape in refl
unescape-fm_encode w (c ∷ s) h = elim (Bool-cases (is_kept w c)) [
  | inl k ↦ rw k (
      unescape-plain c (fm_encode w s) (kept_plain w c k)
      ∙ ap (cons_to c) (unescape-fm_encode w s h.1))
  | inr k ↦
      let high : c / 16 < 16 = omega arith in
      let low : c % 16 < 16 = omega arith in
      let same : c / 16 * 16 + c % 16 ≡ c = omega arith in
      let both : is_hex (hex_digit (c / 16)) && is_hex (hex_digit (c % 16)) ≡ true =
        rw (is_hex-hex_digit (c / 16) high) (is_hex-hex_digit (c % 16) low) in
      rw k (
        unescape-hex (hex_digit (c / 16)) (hex_digit (c % 16)) (fm_encode w s) both
        ∙ rw (
          unhex-hex_digit (c / 16) high,
          unhex-hex_digit (c % 16) low,
          same,
          unescape-fm_encode w s h.1,
        ))
]

-- Decoding undoes the encoding of any bytes, with or without the slash left as it is.
pub path_unescape-fm_encode :
    (wildcard : Bool) (s : Text) → IsBytes s → path_unescape (fm_encode wildcard s) ≡ s
unfolding path_unescape
path_unescape-fm_encode wildcard s h =
    ap (or_raw (fm_encode wildcard s)) (unescape-fm_encode wildcard s h)

-- A character that may stand in a URI as the value of a placeholder.
abbrev pub IsEncoded : Bool → ℕ → Type 0
IsEncoded wildcard c = (fm_unreserved c ≡ true) ⊎ (c ≡ b'%') ⊎ ((wildcard ≡ true) × (c ≡ b'/'))

hex_digit-IsEncoded : (w : Bool) (d : ℕ) → d < 16 → IsEncoded w (hex_digit d)
hex_digit-IsEncoded w d h = inl (ground arith)

kept-IsEncoded : (w : Bool) (c : ℕ) → is_kept w c ≡ true → IsEncoded w c
kept-IsEncoded w c h = ground arith

-- What an encoding of bytes is made of: unreserved characters and percent signs, and slashes for a
-- wildcard alone; so a simple value has no slash, question mark or brace left in it. An encoding is
-- empty only for the empty text.
pub fm_encode-IsEncoded :
    (wildcard : Bool) (s : Text)
    → IsBytes s
    → All (IsEncoded wildcard) (fm_encode wildcard s)
      × (is_empty (fm_encode wildcard s) ≡ is_empty s)
unfolding fm_encode
fm_encode-IsEncoded w [] h = (tt, refl)
fm_encode-IsEncoded w (c ∷ s) h = elim (Bool-cases (is_kept w c)) [
  | inl k ↦ rw k ((kept-IsEncoded w c k, (fm_encode-IsEncoded w s h.1).0), refl)
  | inr k ↦ rw k (
    (
      inr (inl refl),
      (
        hex_digit-IsEncoded w (c / 16) (omega arith),
        (hex_digit-IsEncoded w (c % 16) (omega arith), (fm_encode-IsEncoded w s h.1).0),
      ),
    ),
    refl,
  )
]
