-- ===== src/Middleware/Metrics.antt =====
-- middleware/metrics.go: counts and durations for each method. The counters are int64: their sums are
-- taken modulo 2 ^ 64, on the bit patterns.
use fastmcp.Prelude.{
  sym, subst, ℕ, ◌+◌, ◌-◌, ◌%◌, ◌^◌, Text, text_eq, Bool, true, false, List, [], ◌∷◌, Option, none,
  some, Outcome, ok, err, panic, Slot, ◌≡◌, refl, ◌∙◌, ap, arith, if◌then◌else◌,
}
use fastmcp.Prelude.Dict.{Dict, get, put, get-put}
use fastmcp.Rpc.{Response}
use fastmcp.Middleware.{MiddlewareContext, Handler, Middleware, func, chain_then}
use fastmcp.Middleware.Chain.{chain_then-func}

pub record MethodStats : Type 0 where
  pub total : ℕ
  pub success : ℕ
  pub errors : ℕ
  pub total_duration : ℕ

abbrev pub word : ℕ
word = 2 ^ 64

abbrev pub add64 : ℕ → ℕ → ℕ
add64 a b = (a + b) % word

abbrev pub no_stats : MethodStats
no_stats = record { total = 0; success = 0; errors = 0; total_duration = 0 }

-- `resp != nil && resp.Error != nil`
abbrev pub is_error : Option Response → Bool
is_error none = false
is_error (some resp) = elim resp.error [ none ↦ false | some e ↦ true ]

unfoldable pub count : Bool → ℕ → MethodStats → MethodStats
count failed duration st = record {
  total = add64 st.total 1;
  success = if failed then st.success else add64 st.success 1;
  errors = if failed then add64 st.errors 1 else st.errors;
  total_duration = add64 st.total_duration duration;
}

abbrev pub stats_or_new : Option MethodStats → MethodStats
stats_or_new none = no_stats
stats_or_new (some st) = st

unfoldable pub observe : Text → Bool → ℕ → Dict MethodStats → Dict MethodStats
unfolding count
observe method failed duration stats =
    put method (count failed duration (stats_or_new (get method stats))) stats

module _ {S : Type 0} (slot : Slot S (Dict MethodStats)) (now : S → ℕ) where
  -- what follows `resp := next(mc)`, with the start time: a panic leaves nothing
  abbrev pub after : MiddlewareContext → ℕ → Outcome ⊥ (Option Response) → S → S
  after mc start (ok resp) s =
      slot.write (observe mc.method (is_error resp) ((now s + word - start) % word) (slot.read s)) s
  after mc start (err e) s = s
  after mc start (panic m) s = s

  unfoldable pub metrics : Middleware S
  unfolding observe
  metrics = func (λ mc next s. let (r, s') = next mc s in (r, after mc (now s) r s'))

  -- Metrics.Reset
  unfoldable pub reset : S → S
  reset s = slot.write [] s

  -- Snapshot
  abbrev pub snapshot : S → Dict MethodStats
  snapshot s = slot.read s

abbrev pub IsEven : MethodStats → Type 0
IsEven st = st.total % word ≡ (st.success + st.errors) % word

-- Every request counts once, as a success or as an error.
abbrev pub IsBalanced : Dict MethodStats → Type 0
IsBalanced stats = (k : Text) (st : MethodStats) → get k stats ≡ some st → IsEven st

count-IsEven : (failed : Bool) (d : ℕ) (st : MethodStats) → IsEven st → IsEven (count failed d st)
unfolding count
count-IsEven true d st h = omega arith
count-IsEven false d st h = omega arith

stats_or_new-IsEven :
    (o : Option MethodStats)
    → ((st : MethodStats) → o ≡ some st → IsEven st)
    → IsEven (stats_or_new o)
stats_or_new-IsEven none h = refl
stats_or_new-IsEven (some st) h = h st refl

one_of_IsEven :
    (b : Bool) (c : MethodStats) (o : Option MethodStats) (st : MethodStats)
    → IsEven c
    → ((x : MethodStats) → o ≡ some x → IsEven x)
    → (if b then some c else o) ≡ some st
    → IsEven st
one_of_IsEven true c o st hc h e = subst IsEven (ap stats_or_new e) hc
one_of_IsEven false c o st hc h e = h st e

observe-IsBalanced :
    (method : Text) (failed : Bool) (d : ℕ) (stats : Dict MethodStats)
    → IsBalanced stats
    → IsBalanced (observe method failed d stats)
unfolding observe
observe-IsBalanced method failed d stats h k st e =
    let c = count failed d (stats_or_new (get method stats)) in
    one_of_IsEven (text_eq method k) c (get k stats) st
      (count-IsEven failed d (stats_or_new (get method stats))
        (stats_or_new-IsEven (get method stats) (h method)))
      (h k) (sym (get-put method k c stats) ∙ e)

module _ {S : Type 0} (slot : Slot S (Dict MethodStats)) (now : S → ℕ) where
  -- What Metrics records of a finished request, given the state before it recorded.
  abbrev pub Records : MiddlewareContext → Outcome ⊥ (Option Response) → S → S → Type 0
  Records mc (ok resp) s s' =
      (st : MethodStats) × ((k : Text)
        → get k (snapshot slot now s')
          ≡ (if text_eq mc.method k then some st else get k (snapshot slot now s)))
      × (st.total ≡ add64 (stats_or_new (get mc.method (snapshot slot now s))).total 1)
      × (st.success ≡ (
          if is_error resp
          then (stats_or_new (get mc.method (snapshot slot now s))).success
          else add64 (stats_or_new (get mc.method (snapshot slot now s))).success 1))
      × (st.errors ≡ (
          if is_error resp
          then add64 (stats_or_new (get mc.method (snapshot slot now s))).errors 1
          else (stats_or_new (get mc.method (snapshot slot now s))).errors))
  Records mc (err e) s s' = ⊥
  Records mc (panic m) s s' = s' ≡ s

  get-observe :
      (mc : MiddlewareContext) (failed : Bool) (d : ℕ) (s : S) (k : Text)
      → get k (slot.read (slot.write (observe mc.method failed d (slot.read s)) s)) ≡ (
          if text_eq mc.method k
          then some (count failed d (stats_or_new (get mc.method (slot.read s))))
          else get k (slot.read s))
  unfolding observe
  get-observe mc failed d s k =
      ap (get k) (slot.read-write (observe mc.method failed d (slot.read s)) s)
      ∙ get-put mc.method k (count failed d (stats_or_new (get mc.method (slot.read s))))
          (slot.read s)

  after-Records :
      (mc : MiddlewareContext) (start : ℕ) (r : Outcome ⊥ (Option Response)) (s : S)
      → Records mc r s (after slot now mc start r s)
  unfolding observe count
  after-Records mc start (ok resp) s =
      let d = (now s + word - start) % word in
      (
        count (is_error resp) d (stats_or_new (get mc.method (slot.read s))),
        get-observe mc (is_error resp) d s,
        refl,
        refl,
        refl,
      )
  after-Records mc start (err e) s = e
  after-Records mc start (panic m) s = refl

  -- Metrics answers as the rest of the chain does. A finished request adds one to its method's total
  -- and to its successes or its errors, by whether the answer is an error, and leaves the other
  -- methods' counts; a request that panics is not counted.
  pub metrics-Records :
      (ms : List (Middleware S)) (final : Option (Handler S)) (mc : MiddlewareContext) (s : S)
      → ((chain_then (metrics slot now ∷ ms) final mc s).0 ≡ (chain_then ms final mc s).0)
        × Records mc
            (chain_then ms final mc s).0
            (chain_then ms final mc s).1
            (chain_then (metrics slot now ∷ ms) final mc s).1
  unfolding metrics
  metrics-Records ms final mc s =
      let run = chain_then ms final mc s in
      rw
        (chain_then-func
          (λ mc next s. let (r, s') = next mc s in (r, after slot now mc (now s) r s')) ms final mc)
        (refl, after-Records mc (now s) run.0 run.1)

  -- what the rest of the chain leaves of the counts
  after-IsBalanced :
      (mc : MiddlewareContext) (start : ℕ) (r : Outcome ⊥ (Option Response)) (s : S)
      → IsBalanced (snapshot slot now s)
      → IsBalanced (snapshot slot now (after slot now mc start r s))
  after-IsBalanced mc start (ok resp) s h =
      let d = (now s + word - start) % word in
      rw (slot.read-write (observe mc.method (is_error resp) d (slot.read s)) s)
        (observe-IsBalanced mc.method (is_error resp) d (slot.read s) h)
  after-IsBalanced mc start (err e) s h = h
  after-IsBalanced mc start (panic m) s h = h

  -- Where the rest of the chain keeps every method's total the sum, modulo 2 ^ 64, of its successes and
  -- its errors, a chain headed by Metrics does too.
  pub metrics-IsBalanced :
      (ms : List (Middleware S)) (final : Option (Handler S)) (mc : MiddlewareContext) (s : S)
      → IsBalanced (snapshot slot now (chain_then ms final mc s).1)
      → IsBalanced (snapshot slot now (chain_then (metrics slot now ∷ ms) final mc s).1)
  unfolding metrics
  metrics-IsBalanced ms final mc s h =
      let run = chain_then ms final mc s in
      rw
        (chain_then-func
          (λ mc next s. let (r, s') = next mc s in (r, after slot now mc (now s) r s')) ms final mc)
        (after-IsBalanced mc (now s) run.0 run.1 h)
