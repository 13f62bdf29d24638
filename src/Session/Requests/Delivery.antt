-- ===== src/Session/Requests/Delivery.antt =====
-- Which response a request of session.go returns, and when the read loop is stuck.
use fastmcp.Prelude.{
  ℕ, ◌+◌, ◌≤◌, Text, text_eq, text_eq_iff, Bool, true, false, List, [], ◌∷◌, Option, none, some,
  ◌≡◌, ◌⊎◌, inl, inr, refl, sym, ◌∙◌, arith, if◌then◌else◌, ◌==◌, ==_iff, Bool-cases,
}
use fastmcp.Prelude.Dict.{Dict, get, put, delete, get-put, get-delete}
use fastmcp.Session.Requests.{
  set_at, Calls, no_calls, held, Step, registers, writes, looks_up, sends, returns, gives_up, Steps,
  stay, next,
}

set_elsewhere : {A : Type 0} (f : ℕ → A) (i j : ℕ) (a : A) → (i ≡ j → ⊥) → set_at f i a j ≡ f j
set_elsewhere f i j a h = elim (Bool-cases (i == j)) [
  | inl e ↦ absurd (h ((==_iff i j).0 e))
  | inr e ↦ rw e
]

not_waiting : (w : ℕ → Bool) (i n : ℕ) → w n ≡ false → w i ≡ true → i ≡ n → ⊥
not_waiting w i n h k e = let clash : true ≡ false = rw (← k, e) h in cc clash

if_some :
    {A : Type 0} (b : Bool) (a x : A) (o : Option A)
    → (if b then some a else o) ≡ some x
    → ((b ≡ true) × (a ≡ x)) ⊎ (o ≡ some x)
if_some true a x o e = inl (refl, cc e)
if_some false a x o e = inr e

if_none :
    {A : Type 0} (b : Bool) (x : A) (o : Option A) → (if b then none else o) ≡ some x → o ≡ some x
if_none true x o e = let clash : ⊥ = cc e in absurd clash
if_none false x o e = e

held-some :
    {R : Type 0} (o : Option ℕ) (r q : R) (n : ℕ) → held o r ≡ some (n, q) → (o ≡ some n) × (r ≡ q)
held-some none r q n e = let clash : ⊥ = cc e in absurd clash
held-some (some m) r q n e = (cc e, cc e)

module _ (key : ℕ → Text) where
  registered_put :
      (m : Dict ℕ) (n j : ℕ) (id : Text)
      → (get id m ≡ some j → key j ≡ id)
      → get id (put (key n) n m) ≡ some j
      → key j ≡ id
  registered_put m n j id h e =
      elim (if_some (text_eq (key n) id) n j (get id m) (sym (get-put (key n) id n m) ∙ e)) [
        | inl (same, at) ↦ rw (← at) ((text_eq_iff (key n) id).0 same)
        | inr old ↦ h old
      ]

  registered_delete :
      (m : Dict ℕ) (n j : ℕ) (id : Text) → get id (delete (key n) m) ≡ some j → get id m ≡ some j
  registered_delete m n j id e =
      if_none (text_eq (key n) id) j (get id m) (sym (get-delete (key n) id m) ∙ e)

module _ {R : Type 0} where
  -- A response that came in under an id.
  abbrev pub Came : Text → R → List (Text × R) → Type 0
  Came id r [] = ⊥
  Came id r ((i, x) ∷ l) = ((i ≡ id) × (x ≡ r)) ⊎ Came id r l

  -- What `deliver` is stuck on: a full channel that no request waits at any more.
  abbrev pub IsStuck : ℕ → R → Calls R → Type 0
  IsStuck n r s =
      (s.holding ≡ some (n, r))
      × ((x : R) × (s.buffer n ≡ some x))
      × (s.waiting n ≡ false)
      × (n ≤ s.counter)

module _ {R : Type 0} (key : ℕ → Text) where
  IsStuck-Step : (n : ℕ) (r : R) (s t : Calls R) → Step key s t → IsStuck n r s → IsStuck n r t
  IsStuck-Step n r _ _ (registers s ready) (h, (x, b), w, c) =
      let other : s.counter + 1 ≡ n → ⊥ = λ e. omega arith in
      (
        h,
        (x, rw (set_elsewhere s.buffer (s.counter + 1) n none other) b),
        rw (set_elsewhere s.waiting (s.counter + 1) n true other) w,
        omega arith,
      )
  IsStuck-Step n r _ _ (writes s i m k) h = h
  IsStuck-Step n r _ _ (looks_up s id q k) (h, b, w, c) = let clash : ⊥ = cc (h, k) in absurd clash
  IsStuck-Step n r _ _ (sends s i q k e) (h, (x, b), w, c) =
      let clash : ⊥ = cc (h, k, e, b) in absurd clash
  IsStuck-Step n r _ _ (returns s i q k e) (h, (x, b), w, c) =
      let other : i ≡ n → ⊥ = not_waiting s.waiting i n w k in
      (
        h,
        (x, rw (set_elsewhere s.buffer i n none other) b),
        rw (set_elsewhere s.waiting i n false other) w,
        c,
      )
  IsStuck-Step n r _ _ (gives_up s i k) (h, (x, b), w, c) =
      let other : i ≡ n → ⊥ = not_waiting s.waiting i n w k in
      (h, (x, b), rw (set_elsewhere s.waiting i n false other) w, c)

  -- What the responses of a state are: each was received under the id of the request whose channel it is
  -- in, on its way to, or returned by.
  pub record IsSound (s : Calls R) : Type 0 where
    pub registered : (id : Text) (n : ℕ) → get id s.pending ≡ some n → key n ≡ id
    pub held_came : (n : ℕ) (r : R) → s.holding ≡ some (n, r) → Came (key n) r s.received
    pub kept_came : (n : ℕ) (r : R) → s.buffer n ≡ some r → Came (key n) r s.received
    pub answer_came : (n : ℕ) (r : R) → s.answered n ≡ some r → Came (key n) r s.received

  Came-set :
      (f : ℕ → Option R) (l : List (Text × R)) (i n : ℕ) (q r : R)
      → Came (key i) q l
      → (f n ≡ some r → Came (key n) r l)
      → set_at f i (some q) n ≡ some r
      → Came (key n) r l
  Came-set f l i n q r c h e = elim (if_some (i == n) q r (f n) e) [
    | inl (same, at) ↦ rw (← at, ← (==_iff i n).0 same) c
    | inr old ↦ h old
  ]

  IsSound-Step : (s t : Calls R) → Step key s t → IsSound s → IsSound t
  IsSound-Step _ _ (registers s ready) h = record {
    registered = λ id j e. registered_put key s.pending (s.counter + 1) j id (h.registered id j) e;
    held_came = h.held_came;
    kept_came = λ n r e. h.kept_came n r (if_none (s.counter + 1 == n) r (s.buffer n) e);
    answer_came = h.answer_came;
  }
  IsSound-Step _ _ (writes s n m k) h = record {
    registered = h.registered;
    held_came = h.held_came;
    kept_came = h.kept_came;
    answer_came = h.answer_came;
  }
  IsSound-Step _ _ (looks_up s id r k) h = record {
    registered = h.registered;
    held_came = λ n q e.
        let (at, same) = held-some (get id s.pending) r q n e in
        inl (sym (h.registered id n at), same);
    kept_came = λ n q e. inr (h.kept_came n q e);
    answer_came = λ n q e. inr (h.answer_came n q e);
  }
  IsSound-Step _ _ (sends s i q k e) h = record {
    registered = h.registered;
    held_came = λ n r e. let clash : ⊥ = cc e in absurd clash;
    kept_came =
        λ n r e. Came-set s.buffer s.received i n q r (h.held_came i q k) (h.kept_came n r) e;
    answer_came = h.answer_came;
  }
  IsSound-Step _ _ (returns s i q k e) h = record {
    registered = λ id j e. h.registered id j (registered_delete key s.pending i j id e);
    held_came = h.held_came;
    kept_came = λ n r e. h.kept_came n r (if_none (i == n) r (s.buffer n) e);
    answer_came =
        λ n r e'. Came-set s.answered s.received i n q r (h.kept_came i q e) (h.answer_came n r) e';
  }
  IsSound-Step _ _ (gives_up s i k) h = record {
    registered = λ id j e. h.registered id j (registered_delete key s.pending i j id e);
    held_came = h.held_came;
    kept_came = h.kept_came;
    answer_came = h.answer_came;
  }

  IsSound-Steps : (s t : Calls R) → Steps key s t → IsSound s → IsSound t
  IsSound-Steps _ _ (stay s) h = h
  IsSound-Steps _ _ (next s t u a b) h = IsSound-Steps t u b (IsSound-Step s t a h)

  IsSound-no_calls : (supports : Bool) → IsSound (no_calls supports)
  unfolding get
  IsSound-no_calls supports = record {
    registered = λ id n e. let clash : ⊥ = cc e in absurd clash;
    held_came = λ n r e. let clash : ⊥ = cc e in absurd clash;
    kept_came = λ n r e. let clash : ⊥ = cc e in absurd clash;
    answer_came = λ n r e. let clash : ⊥ = cc e in absurd clash;
  }

  -- However the goroutines of a session interleave, a request returns no other response than one that came
  -- in under its own id.
  pub answers-Came :
      (supports : Bool) (s : Calls R) (n : ℕ) (r : R)
      → Steps key (no_calls supports) s
      → s.answered n ≡ some r
      → Came (key n) r s.received
  answers-Came supports s n r run e =
      (IsSound-Steps (no_calls supports) s run (IsSound-no_calls supports)).answer_came n r e

  -- Once `deliver` is to send on a full channel that no request waits at, it stays there, whatever the
  -- other goroutines do: the session handles no further message.
  pub IsStuck-forever :
      (n : ℕ) (r : R) (s t : Calls R) → Steps key s t → IsStuck n r s → IsStuck n r t
  IsStuck-forever n r _ _ (stay s) h = h
  IsStuck-forever n r _ _ (next s t u a b) h = IsStuck-forever n r t u b (IsStuck-Step n r s t a h)
