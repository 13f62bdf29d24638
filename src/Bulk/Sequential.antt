-- ===== src/Bulk/Sequential.antt =====
-- What a batch of contrib/bulk.go that runs one call after the other attempts and reports.
use fastmcp.Prelude.{
  ℕ, Text, Bool, true, false, not, ◌&&◌, ◌||◌, List, [], ◌∷◌, ◌++◌, map, Option, none, some,
  is_some, Result, done, failed, ◌≡◌, ◌≢◌, ◌⊎◌, inl, inr, refl, subst, ◌-◌, ap, ◌∙◌, arith,
  Option-cases, Bool-cases,
}
use fastmcp.Rpc.{Value}
use fastmcp.Bulk.{
  ToolCall, ToolResult, Called, BulkOptions, has_failed, failure, append_failure, prepend,
  result_of, invoke, call_sequential,
}

abbrev pub call_made : ToolResult → ToolCall
call_made r = record { tool = r.tool; arguments = r.arguments }

-- the errors of the failed results, in order
unfoldable pub failures : (Text → Text) → List ToolResult → List Text
failures quote [] = []
failures quote (r ∷ rs) = append_failure (failure quote r) (failures quote rs)

module _ {S : Type 0} (call_tool : Text → Value → S → Result Called × S) (now : S → ℕ)
    (ctx_err : S → Option Text) (quote : Text → Text) where
  -- Why a batch left calls out: its context was done, or a call failed and it is not to continue.
  abbrev pub Stops : BulkOptions → List ToolResult → List Text → S → Type 0
  Stops opts results extra s =
      ((e : Text) × (ctx_err s ≡ some e) × (extra ≡ e ∷ []))
      ⊎ ((opts.continue_on_error ≡ false) × (failures quote results ≢ []) × (extra ≡ []))

  -- A batch attempted the first of its calls, has their results in order, and reports their failures
  -- and what stopped it.
  abbrev pub IsBatch : BulkOptions → List ToolCall → (List ToolResult × List Text) × S → Type 0
  IsBatch opts calls out =
      (tried : List ToolCall) × (rest : List ToolCall) × (extra : List Text) × (calls
        ≡ tried ++ rest)
      × (map call_made out.0.0 ≡ tried)
      × (out.0.1 ≡ failures quote out.0.0 ++ extra)
      × (((rest ≡ []) × (extra ≡ [])) ⊎ Stops opts out.0.0 extra out.1)

  -- what a call's result has of what the tool gave
  abbrev pub Holds : ToolResult → Result Called → Type 0
  Holds r (failed e) =
      (r.error ≡ some e) × (r.is_error ≡ false) × (r.content ≡ []) × (r.structured_content ≡ [])
  Holds r (done res) =
      (r.error ≡ none)
      × (r.is_error ≡ res.is_error)
      × (r.content ≡ res.content)
      × (r.structured_content ≡ res.structured_content)

  -- The results are those of the calls, each run once with its own arguments, one after the other, in the
  -- state that the one before left: the context was live before each, and behind a failure, where the batch
  -- is not to continue, there is none.
  pub data Runs (opts : BulkOptions) : List ToolCall → S → List ToolResult → S → Type 0 where
    no_more : {calls : List ToolCall} {s : S} → Runs opts calls s [] s
    one_more :
        {call : ToolCall} {calls : List ToolCall} {s t : S} {r : ToolResult} {rs : List ToolResult}
        → ctx_err s ≡ none
        → (r.tool ≡ call.tool) × (r.arguments ≡ call.arguments)
        → Holds r (call_tool call.tool call.arguments s).0
        → ((r.is_error ≡ true) ⊎ (r.error ≢ none)
            → (opts.continue_on_error ≡ true)
              ⊎ ((rs ≡ []) × (t ≡ (call_tool call.tool call.arguments s).1)))
        → Runs opts calls (call_tool call.tool call.arguments s).1 rs t
        → Runs opts (call ∷ calls) s (r ∷ rs) t

  Holds-result_of :
      (call : ToolCall) (d : ℕ) (res : Result Called) → Holds (result_of call d res) res
  Holds-result_of call d (failed e) = (refl, refl, refl, refl)
  Holds-result_of call d (done res) = (refl, refl, refl, refl)

  has_failed_iff :
      (r : ToolResult) (o : Option Text)
      → r.error ≡ o
      → (r.is_error ≡ true) ⊎ (r.error ≢ none)
      → r.is_error || is_some o ≡ true
  has_failed_iff r o e (inl h) = rw h refl
  has_failed_iff r none e (inr h) = absurd (h e)
  has_failed_iff r (some x) e (inr h) = ground arith

  append_failure-append :
      (f : Option Text) (xs ys : List Text)
      → append_failure f (xs ++ ys) ≡ append_failure f xs ++ ys
  append_failure-append none xs ys = refl
  append_failure-append (some e) xs ys = refl

  append_failure-ne :
      (f : Option Text) (xs : List Text) → (f ≢ none) ⊎ (xs ≢ []) → append_failure f xs ≢ []
  append_failure-ne none xs (inl h) = absurd (h refl)
  append_failure-ne none xs (inr h) = h
  append_failure-ne (some e) xs h = cc

  failure-ne :
      (r : ToolResult) (o : Option Text)
      → r.error ≡ o
      → r.is_error || is_some o ≡ true
      → failure quote r ≢ none
  unfolding failure
  failure-ne r (some x) e h = rw (e, failure) cc
  failure-ne r none e h = let own : r.is_error ≡ true = ground arith in rw (e, failure, own) cc

  prepend-IsBatch :
      (opts : BulkOptions) (r : ToolResult) (calls : List ToolCall)
      (out : (List ToolResult × List Text) × S)
      → IsBatch opts calls out
      → IsBatch opts (call_made r ∷ calls) (prepend r (failure quote r) out)
  unfolding failures
  prepend-IsBatch opts r calls out (tried, rest, extra, e1, e2, e3, e4) = (
    call_made r ∷ tried,
    rest,
    extra,
    ap (λ x. call_made r ∷ x) e1,
    ap (λ x. call_made r ∷ x) e2,
    ap (append_failure (failure quote r)) e3
        ∙ append_failure-append (failure quote r) (failures quote out.0.0) extra,
    elim e4 [
      | inl h ↦ inl h
      | inr (inl h) ↦ inr (inl h)
      | inr (inr h) ↦
          inr
            (inr (h.0, append_failure-ne (failure quote r) (failures quote out.0.0) (inr h.1), h.2))
    ],
  )

  and_not : (a b : Bool) → a && not b ≡ true → (a ≡ true) × (b ≡ false)
  and_not a b h = ground arith

  one-IsBatch :
      (opts : BulkOptions) (r : ToolResult) (calls : List ToolCall) (s : S)
      → has_failed r && not opts.continue_on_error ≡ true
      → IsBatch opts (call_made r ∷ calls) (prepend r (failure quote r) (([], []), s))
  unfolding failures
  one-IsBatch opts r calls s h = (
    call_made r ∷ [],
    calls,
    [],
    refl,
    refl,
    append_failure-append (failure quote r) [] [],
    inr (
        inr (
          (and_not (has_failed r) opts.continue_on_error h).1,
          append_failure-ne (failure quote r) []
              (inl (failure-ne r r.error refl (and_not (has_failed r) opts.continue_on_error h).0)),
          refl,
        )),
  )

  call_made-result_of :
      (call : ToolCall) (d : ℕ) (res : Result Called) → call_made (result_of call d res) ≡ call
  call_made-result_of call d (failed e) = refl
  call_made-result_of call d (done res) = refl

  call_made-invoke :
      (call : ToolCall) (s : S) → call_made (invoke call_tool now ctx_err quote call s).0 ≡ call
  unfolding invoke
  call_made-invoke call s =
      let run = call_tool call.tool call.arguments s in
      call_made-result_of call (now run.1 - now s) run.0

  for_call :
      (opts : BulkOptions) (r : ToolResult) (call : ToolCall) (calls : List ToolCall)
      (out : (List ToolResult × List Text) × S)
      → call_made r ≡ call
      → IsBatch opts (call_made r ∷ calls) out
      → IsBatch opts (call ∷ calls) out
  for_call opts r call calls out e h = subst (λ c. IsBatch opts (c ∷ calls) out) e h

  Runs-invoke :
      (opts : BulkOptions) (call : ToolCall) (calls : List ToolCall) (s t : S)
      (rs : List ToolResult)
      → ctx_err s ≡ none
      → (has_failed (invoke call_tool now ctx_err quote call s).0 ≡ true
          → (opts.continue_on_error ≡ true)
            ⊎ ((rs ≡ []) × (t ≡ (call_tool call.tool call.arguments s).1)))
      → Runs opts calls (call_tool call.tool call.arguments s).1 rs t
      → Runs opts (call ∷ calls) s ((invoke call_tool now ctx_err quote call s).0 ∷ rs) t
  unfolding invoke
  Runs-invoke opts call calls s t rs live stop run =
      let r = (invoke call_tool now ctx_err quote call s).0 in
      let made = call_made-invoke call s in
      one_more live (ap (λ c. c.tool) made, ap (λ c. c.arguments) made)
        (Holds-result_of call _ (call_tool call.tool call.arguments s).0)
        (λ h. stop (has_failed_iff r r.error refl h)) run

  call_sequential-Runs :
      (opts : BulkOptions) (calls : List ToolCall) (s : S)
      → Runs opts calls s
          (call_sequential call_tool now ctx_err quote opts calls s).0.0
          (call_sequential call_tool now ctx_err quote opts calls s).1
  unfolding call_sequential invoke
  call_sequential-Runs opts [] s = no_more
  call_sequential-Runs opts (call ∷ calls) s = elim (Option-cases (ctx_err s)) [
    | inr (e, cut) ↦ rw (cut, call_sequential) no_more
    | inl live ↦
        let r = (invoke call_tool now ctx_err quote call s).0 in
        let next = (invoke call_tool now ctx_err quote call s).1 in
        elim (Bool-cases (has_failed r && not opts.continue_on_error)) [
          | inl stop ↦
              rw (live, call_sequential, stop)
                (Runs-invoke opts call calls s next [] live (λ h. inr (refl, refl)) no_more)
          | inr go_on ↦
              rw (live, call_sequential, go_on)
                (Runs-invoke opts call calls s _ _ live (λ h. inl (ground arith))
                  (call_sequential-Runs opts calls next))
        ]
  ]

  call_sequential_attempts :
      (opts : BulkOptions) (calls : List ToolCall) (s : S)
      → IsBatch opts calls (call_sequential call_tool now ctx_err quote opts calls s)
  unfolding call_sequential
  call_sequential_attempts opts [] s =
      ([], [], [], refl, refl, unfold failures in refl, inl (refl, refl))
  call_sequential_attempts opts (call ∷ calls) s = elim (Option-cases (ctx_err s)) [
    | inr (e, cut) ↦
        rw (cut, call_sequential)
          ([], call ∷ calls, e ∷ [], refl, refl, unfold failures in refl, inr (inl (e, cut, refl)))
    | inl live ↦
        let r = (invoke call_tool now ctx_err quote call s).0 in
        let next = (invoke call_tool now ctx_err quote call s).1 in
        elim (Bool-cases (has_failed r && not opts.continue_on_error)) [
          | inl stop ↦
              rw (live, call_sequential, stop)
                (for_call opts r call calls (prepend r (failure quote r) (([], []), next))
                  (call_made-invoke call s) (one-IsBatch opts r calls next stop))
          | inr go_on ↦
              rw (live, call_sequential, go_on)
                (for_call opts r call calls
                  (prepend r (failure quote r)
                    (call_sequential call_tool now ctx_err quote opts calls next))
                  (call_made-invoke call s)
                  (prepend-IsBatch opts r calls
                    (call_sequential call_tool now ctx_err quote opts calls next)
                    (call_sequential_attempts opts calls next)))
        ]
  ]

  -- A batch that runs one call after the other attempts the first of its calls, in order: it runs the tool
  -- of each once, with its arguments, in the state that the one before left, while its context is live, and
  -- has what the tool gave at its place. Its error joins the failures of these results in order. It
  -- attempts all of them unless its context is done, whose error then comes last, or a call failed and the
  -- batch is not to continue on errors, and after such a failure it attempts none.
  pub call_sequential-IsBatch :
      (opts : BulkOptions) (calls : List ToolCall) (s : S)
      → IsBatch opts calls (call_sequential call_tool now ctx_err quote opts calls s)
        × Runs opts calls s
            (call_sequential call_tool now ctx_err quote opts calls s).0.0
            (call_sequential call_tool now ctx_err quote opts calls s).1
  call_sequential-IsBatch opts calls s =
      (call_sequential_attempts opts calls s, call_sequential-Runs opts calls s)
