-- ===== src/Middleware/RateLimit/Bound.antt =====
-- How many requests the buckets of middleware/ratelimit.go let through.
use native.Mathlib.Nat.{mul-add, mul_comm}
use fastmcp.Prelude.{
  ℕ, ◌+◌, ◌-◌, ◌*◌, ◌≤◌, Text, text_eq, text_eq_iff, length, Bool, true, false, ◌&&◌, ltb, List, [],
  ◌∷◌, All, Option, none, some, ◌≡◌, refl, sym, ap, arith, Bool-cases, inl, inr, leb, leb→le,
  ltb→lt, if◌then◌else◌,
}
use fastmcp.Prelude.Dict.{Dict, get, put, get-put}
use fastmcp.Middleware.RateLimit.{Floats, Bucket, capped, grown, refilled, consume, allow}

-- one call of `allow`: its key and its time
abbrev pub Call : Type 0
Call = Text × ℕ

-- What float64 does to the numbers of tokens. The value of a float that is not negative is counted in some
-- unit of which every float is a multiple (2 ^ -1074); that of another is 0, and that of an infinite one
-- above the others. Up to the capacity, the result of an operation is at most `slack` above the exact one;
-- `rate` is at least the refill in a nanosecond.
pub record IsRounded {F : Type 0} (fl : Floats F) (value : F → ℕ) (capacity refill : F)
    (rate slack : ℕ) : Type 0 where
  pub above : (a : F) → fl.less capacity a ≡ true → value capacity ≤ value a
  pub not_above : (a : F) → fl.less capacity a ≡ false → value a ≤ value capacity
  pub enough : (a : F) → fl.at_least a fl.one ≡ true → value fl.one ≤ value a
  pub product :
      (t x : ℕ)
      → x ≤ value (fl.mul (fl.seconds t) refill)
      → x ≤ value capacity
      → x ≤ t * rate + slack
  pub sum :
      (a b : F) (x : ℕ)
      → x ≤ value (fl.add a b)
      → x ≤ value capacity
      → x ≤ value a + value b + slack
  pub less_one :
      (a : F)
      → value fl.one ≤ value a
      → value a ≤ value capacity
      → (value (fl.sub a fl.one) + value fl.one ≤ value a + slack)
        × (value (fl.sub a fl.one) ≤ value a)

module _ {F : Type 0} (fl : Floats F) where
  -- how many of the calls under a key are let through, one call after the other
  unfoldable pub grants : F → F → Text → List Call → Dict (Bucket F) → ℕ
  unfolding allow
  grants capacity refill k [] m = 0
  grants capacity refill k ((j, t) ∷ calls) m =
      let (granted, m') = allow fl capacity refill t j m in
      let rest = grants capacity refill k calls m' in
      if text_eq j k && granted then 1 + rest else rest

module _ {F : Type 0} (fl : Floats F) (value : F → ℕ) (capacity refill : F) (rate slack : ℕ)
    (rounded : IsRounded fl value capacity refill rate slack) (from until : ℕ) where
  -- what a key can still spend until the end of the window
  abbrev room : Option (Bucket F) → ℕ
  room none = value capacity + rate * (until - from)
  room (some b) = value b.tokens + rate * (until - b.last)

  abbrev IsPast : Option (Bucket F) → Type 0
  IsPast none = Unit
  IsPast (some b) = (b.last ≤ until) × (value b.tokens ≤ value capacity)

  abbrev spent : Bool → ℕ
  spent granted = if granted then value fl.one else 0

  split_window :
      (a b : ℕ) → a ≤ b → b ≤ until → (b - a) * rate + rate * (until - b) ≤ rate * (until - a)
  split_window a b h k =
      let e : b - a + (until - b) ≡ until - a = omega arith in
      omega (arith, mul_comm (b - a) rate, mul-add rate (b - a) (until - b), ap (λ x. rate * x) e)

  consume-room :
      (b : Bucket F)
      → value b.tokens ≤ value capacity
      → (spent (consume fl b).0 + room (some (consume fl b).1) ≤ room (some b) + slack)
        × (value (consume fl b).1.tokens ≤ value capacity)
        × ((consume fl b).1.last ≡ b.last)
  unfolding consume
  consume-room b h = elim (Bool-cases (fl.at_least b.tokens fl.one)) [
    | inl e ↦
        let l = rounded.less_one b.tokens (rounded.enough b.tokens e) h in
        rw e (omega (arith, l.0), omega (arith, l.1, h), refl)
    | inr e ↦ rw e (omega arith, h, refl)
  ]

  capped_least :
      (g : F)
      → (value (capped fl capacity g) ≤ value g) × (value (capped fl capacity g) ≤ value capacity)
  capped_least g = elim (Bool-cases (fl.less capacity g)) [
    | inl e ↦ rw e (rounded.above g e, omega arith)
    | inr e ↦ rw e (omega arith, rounded.not_above g e)
  ]

  value-capped :
      (t : ℕ) (a : F)
      → value (capped fl capacity (grown fl refill t a)) ≤ value a + t * rate + 2 * slack
  value-capped t a =
      let b = fl.mul (fl.seconds t) refill in
      let (low, high) = capped_least (grown fl refill t a) in
      let total = rounded.sum a b (value (capped fl capacity (grown fl refill t a))) low high in
      elim (Bool-cases (leb (value b) (value capacity))) [
        | inl e ↦
            let p =
              rounded.product t (value b) (omega arith) (leb→le (value b) (value capacity) e) in
            omega (arith, p, total)
        | inr e ↦
            let below : value capacity ≤ value b = ground (arith, e) in
            let p = rounded.product t (value capacity) below (omega arith) in omega (arith, p, high)
      ]

  room-refilled :
      (t : ℕ) (o : Option (Bucket F))
      → from ≤ t
      → t ≤ until
      → IsPast o
      → (room (some (refilled fl capacity refill t o)) ≤ room o + 2 * slack)
        × (value (refilled fl capacity refill t o).tokens ≤ value capacity)
        × ((refilled fl capacity refill t o).last ≤ until)
  unfolding refilled
  room-refilled t none h k p = (omega (arith, split_window from t h k), omega arith, k)
  room-refilled t (some b) h k p = elim (Bool-cases (ltb b.last t)) [
    | inr e ↦ rw e (omega arith, p.1, p.0)
    | inl e ↦
        let later = ltb→lt b.last t e in
        let more = value-capped (t - b.last) b.tokens in
        let window = split_window b.last t (omega (arith, later)) k in
        rw e
          (omega (arith, more, window), (capped_least (grown fl refill (t - b.last) b.tokens)).1, k)
  ]

  abbrev next_bucket : ℕ → Option (Bucket F) → Bool × Bucket F
  next_bucket t o = consume fl (refilled fl capacity refill t o)

  next_room :
      (t : ℕ) (o : Option (Bucket F))
      → from ≤ t
      → t ≤ until
      → IsPast o
      → (spent (next_bucket t o).0 + room (some (next_bucket t o).1) ≤ room o + 3 * slack)
        × IsPast (some (next_bucket t o).1)
  next_room t o h k p =
      let (grows, low, past) = room-refilled t o h k p in
      let (spends, low2, same) = consume-room (refilled fl capacity refill t o) low in
      (omega (arith, grows, spends), (omega (arith, same, past), low2))

  spend :
      (granted : Bool) (rest : ℕ)
      → (if granted then 1 + rest else rest) * value fl.one ≡ spent granted + rest * value fl.one
  spend true rest = omega arith
  spend false rest = omega arith

  -- one call of key j, as the buckets j and k see it
  one_grant :
      (same : Bool) (t rest errors : ℕ) (called other : Option (Bucket F))
      → (same ≡ true → called ≡ other)
      → from ≤ t
      → t ≤ until
      → IsPast other
      → rest * value fl.one ≤ room (if same then some (next_bucket t called).1 else other) + errors
      → (if same && (next_bucket t called).0 then 1 + rest else rest) * value fl.one
        ≤ room other + (3 * slack + errors)
  one_grant false t rest errors called other e h k p r = omega (arith, r)
  one_grant true t rest errors called other e h k p r =
      let past : IsPast called = rw (e refl) p in
      let (spends, later) = next_room t called h k past in
      let total : (if (next_bucket t called).0 then 1 + rest else rest) * value fl.one
          ≤ room called + (3 * slack + errors) =
        omega (arith, spend (next_bucket t called).0 rest, spends, r) in
      rw (sym (e refl)) total

  next-IsPast :
      (same : Bool) (t : ℕ) (called other : Option (Bucket F))
      → (same ≡ true → called ≡ other)
      → from ≤ t
      → t ≤ until
      → IsPast other
      → IsPast (if same then some (next_bucket t called).1 else other)
  next-IsPast false t called other e h k p = p
  next-IsPast true t called other e h k p = (next_room t called h k (rw (e refl) p)).1

  errors_of : List Call → ℕ
  errors_of [] = 0
  errors_of (c ∷ calls) = 3 * slack + errors_of calls

  errors_of-length : (calls : List Call) → errors_of calls ≡ length calls * (3 * slack)
  unfolding errors_of
  errors_of-length [] = omega arith
  errors_of-length (c ∷ calls) = let ih = errors_of-length calls in rw ih (omega arith)

  grants-room :
      (k : Text) (calls : List Call) (m : Dict (Bucket F))
      → All (λ c. (from ≤ c.1) × (c.1 ≤ until)) calls
      → IsPast (get k m)
      → grants fl capacity refill k calls m * value fl.one ≤ room (get k m) + errors_of calls
  unfolding grants allow errors_of
  grants-room k [] m w p = omega arith
  grants-room k ((j, t) ∷ calls) m w p =
      let e = get-put j k (next_bucket t (get j m)).1 m in
      let same : text_eq j k ≡ true → get j m ≡ get k m =
        λ h. ap (λ x. get x m) ((text_eq_iff j k).0 h) in
      let rest =
        grants-room k calls (put j (next_bucket t (get j m)).1 m) w.1
          (rw e (next-IsPast (text_eq j k) t (get j m) (get k m) same w.0.0 w.0.1 p)) in
      one_grant (text_eq j k) t
        (grants fl capacity refill k calls (put j (next_bucket t (get j m)).1 m)) (errors_of calls)
        (get j m) (get k m) same w.0.0 w.0.1 p (rw (sym e) rest)

-- Over any sequence of calls of `allow` at times from one moment until another, in whatever order and
-- under whatever keys, the calls let through under a key that has no bucket yet are at most the capacity
-- plus the refill of the whole window, plus three rounding errors for each call, where the operations on
-- floats round by no more than that error.
pub grants_bounded :
    {F : Type 0} (fl : Floats F) (value : F → ℕ) (capacity refill : F) (rate slack from until : ℕ)
    (k : Text) (calls : List Call) (m : Dict (Bucket F))
    → IsRounded fl value capacity refill rate slack
    → All (λ c. (from ≤ c.1) × (c.1 ≤ until)) calls
    → get k m ≡ none
    → grants fl capacity refill k calls m * value fl.one
      ≤ value capacity + rate * (until - from) + length calls * (3 * slack)
grants_bounded fl value capacity refill rate slack from until k calls m rounded w e =
    let all =
      grants-room fl value capacity refill rate slack rounded from until k calls m w (rw e tt) in
    let start = ap (room fl value capacity refill rate slack rounded from until) e in
    omega (
      arith,
      all,
      start,
      errors_of-length fl value capacity refill rate slack rounded from until calls,
    )
