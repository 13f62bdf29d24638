-- ===== src/Client/Fresh.antt =====
-- client/client.go: what an action of a client does to its counter of ids and to the ids that it has sent.
use fastmcp.Prelude.{
  ℕ, ◌+◌, ◌^◌, ◌%◌, ◌≤◌, ◌<◌, Text, txt, List, [], ◌∷◌, Option, some, Result, done, failed, Outcome,
  ok, err, panic, Exec, continue, lift, ◌>>=◌, ◌≡◌, ◌≢◌, refl, sym, ap, ◌∙◌, arith,
}
use fastmcp.Rpc.{Value}
use fastmcp.Client.{ClientMessage, Transport, ClientError, Connected, ClientCodec}
use fastmcp.Client.Requests.{
  or_failure, failed_over, over, next_id, raw_params, call_with, call_server, request_message,
  raw_result, decoded_call, call_client_tool, call_params,
}

-- a transport that keeps the requests it sends, the last one first
abbrev pub recorded : {W : Type 0} → Transport W → Transport (W × List ClientMessage)
recorded t = record {
  round_trip = λ m s. let (r, w) = t.round_trip m s.0 in (r, (w, m ∷ s.1));
  send_note = λ m s. let (r, w) = t.send_note m s.0 in (r, (w, s.1));
}

abbrev pub IsApart : Text → List ClientMessage → Type 0
IsApart id [] = Unit
IsApart id (m ∷ ms) = (id ≢ m.id) × IsApart id ms

-- no two messages have the same id
abbrev pub AreApart : List ClientMessage → Type 0
AreApart [] = Unit
AreApart (m ∷ ms) = IsApart m.id ms × AreApart ms

-- every message has an id of the counter up to a number
abbrev pub Issued : ClientCodec → ℕ → List ClientMessage → Type 0
Issued codec n [] = Unit
Issued codec n (m ∷ ms) = ((k : ℕ) × (k ≤ n) × (codec.marshal_id k ≡ done m.id)) × Issued codec n ms

Issued-le :
    (codec : ClientCodec) (n k : ℕ) (ms : List ClientMessage)
    → n ≤ k
    → Issued codec n ms
    → Issued codec k ms
Issued-le codec n k [] h i = tt
Issued-le codec n k (m ∷ ms) h ((j, b, e), i) = ((j, omega arith, e), Issued-le codec n k ms h i)

-- two numbers below 2^64 are written differently
abbrev pub IsInjective : ClientCodec → Type 0
IsInjective codec =
    (j k : ℕ) (s : Text)
    → j < 2 ^ 64
    → k < 2 ^ 64
    → codec.marshal_id j ≡ done s
    → codec.marshal_id k ≡ done s
    → j ≡ k

Issued-IsApart :
    (codec : ClientCodec) (inj : IsInjective codec) (n id : ℕ) (s : Text) (ms : List ClientMessage)
    → n < id
    → id < 2 ^ 64
    → codec.marshal_id id ≡ done s
    → Issued codec n ms
    → IsApart s ms
Issued-IsApart codec inj n id s [] h b e i = tt
Issued-IsApart codec inj n id s (m ∷ ms) h b e ((k, le, ek), i) = (
  λ same.
      let both : id ≡ k = inj id k s b (omega arith) e (ek ∙ ap done (sym same)) in
      absurd (omega arith),
  Issued-IsApart codec inj n id s ms h b e i,
)

module _ {W : Type 0} (codec : ClientCodec) (inj : IsInjective codec) (t : Transport W) where
  abbrev pub State : Type 0
  State = Connected (W × List ClientMessage)

  abbrev pub IsFresh : State → Type 0
  IsFresh s = Issued codec s.client.id_ctr s.world.1 × AreApart s.world.1

  -- how far an action moves the counter, keeping the ids apart
  abbrev pub Moves : ℕ → State → State → Type 0
  Moves c s s' =
      (s.client.id_ctr ≤ s'.client.id_ctr) × (s'.client.id_ctr ≤ s.client.id_ctr + c) × IsFresh s'

  abbrev pub Advances : {A : Type 0} → ℕ → Exec State ClientError A → Type 0
  Advances c m = (s : State) → s.client.id_ctr + c < 2 ^ 64 → IsFresh s → Moves c s (m s).1

  pub Advances-bind :
      {A B : Type 0} (c d : ℕ) (m : Exec State ClientError A) (f : A → Exec State ClientError B)
      → Advances c m
      → ((a : A) → Advances d (f a))
      → Advances (c + d) (m >>= f)
  Advances-bind {A} {B} c d m f p q s b h = after (m s).0 (m s).1 (p s (omega arith) h)
    where
      after :
          (o : Outcome ClientError A) (s' : State)
          → Moves c s s'
          → Moves (c + d) s (continue o f s').1
      after (ok a) s' k = let next = q a s' (omega arith) k.2 in (omega arith, omega arith, next.2)
      after (err e) s' k = (k.0, omega arith, k.2)
      after (panic p) s' k = (k.0, omega arith, k.2)

  pub Advances-lift : {A : Type 0} (o : Outcome ClientError A) → Advances 0 (lift o)
  Advances-lift o s b h = (omega arith, omega arith, h)

  -- what is done with the answer changes nothing more
  last-lift :
      {A B : Type 0} (o : Outcome ClientError A) (g : A → Outcome ClientError B) (s : State)
      → (continue o (λ a. lift (g a)) s).1 ≡ s
  last-lift (ok a) g s = refl
  last-lift (err e) g s = refl
  last-lift (panic p) g s = refl

  IsFresh-sent :
      (n : ℕ) (m : ClientMessage) (s : State) (w : W)
      → n < s.client.id_ctr
      → s.client.id_ctr < 2 ^ 64
      → codec.marshal_id s.client.id_ctr ≡ done m.id
      → Issued codec n s.world.1 × AreApart s.world.1
      → IsFresh (record s { world = (w, m ∷ s.world.1) })
  IsFresh-sent n m s w h b e i = (
    ((s.client.id_ctr, omega arith, e), Issued-le codec n _ s.world.1 (omega arith) i.0),
    (Issued-IsApart codec inj n _ m.id s.world.1 h b e i.0, i.1),
  )

  abbrev post : ClientMessage → Exec State ClientError Text
  post m = over ((recorded t).round_trip m) >>= λ resp. lift (raw_result resp)

  post-IsFresh :
      (n : ℕ) (m : ClientMessage) (s : State)
      → n < s.client.id_ctr
      → s.client.id_ctr < 2 ^ 64
      → codec.marshal_id s.client.id_ctr ≡ done m.id
      → Issued codec n s.world.1 × AreApart s.world.1
      → Moves 0 s (post m s).1
  post-IsFresh n m s h b e i =
      let answer = t.round_trip m s.world.0 in
      let s' : State = record s { world = (answer.1, m ∷ s.world.1) } in
      rw (last-lift (failed_over answer.0) raw_result s')
        (omega arith, omega arith, IsFresh-sent n m s answer.1 h b e i)

  -- the request behind its id: the counter stays, and the ids are apart
  call_with-IsFresh :
      (n : ℕ) (method : Text) (params : Option Value) (s : State)
      → n < s.client.id_ctr
      → s.client.id_ctr < 2 ^ 64
      → Issued codec n s.world.1 × AreApart s.world.1
      → Moves 0 s (call_with codec (recorded t) s.client.id_ctr method params s).1
  unfolding call_with
  call_with-IsFresh n method params s h b i = numbered (codec.marshal_id s.client.id_ctr) refl
    where
      idle : Moves 0 s s
      idle = (
        omega arith,
        omega arith,
        (Issued-le codec n s.client.id_ctr s.world.1 (omega arith) i.0, i.1),
      )

      encoded_as :
          (id : Text)
          → codec.marshal_id s.client.id_ctr ≡ done id
          → (o : Outcome ClientError Text)
          → Moves 0 s (continue o (λ raw. post (request_message id method raw)) s).1
      encoded_as id e (ok raw) = post-IsFresh n (request_message id method raw) s h b e i
      encoded_as id e (err x) = idle
      encoded_as id e (panic p) = idle

      numbered :
          (r : Result Text)
          → codec.marshal_id s.client.id_ctr ≡ r
          → Moves 0 s
              (continue
                (or_failure r)
                (λ id. lift (raw_params codec (recorded t) params) >>= λ raw.
                  post (request_message id method raw))
                s).1
      numbered (failed m) e = idle
      numbered (done id) e = encoded_as id e (raw_params codec (recorded t) params)

  pub Advances-call_server :
      (method : Text) (params : Option Value)
      → Advances 1 (call_server codec (recorded t) method params)
  unfolding call_server next_id
  Advances-call_server method params s b h =
      let id : ℕ = (s.client.id_ctr + 1) % 2 ^ 64 in
      let up : id ≡ s.client.id_ctr + 1 = omega arith in
      let s' : State = record s { client = record s.client { id_ctr = id } } in
      let k = call_with-IsFresh s.client.id_ctr method params s' (omega arith) (omega arith) h in
      (omega arith, omega arith, k.2)

  pub Advances-decoded_call :
      {A : Type 0} (decode : Text → Result A) (method : Text) (params : Option Value)
      → Advances 1 (decoded_call codec (recorded t) decode method params)
  Advances-decoded_call decode method params =
      Advances-bind 1 0 (call_server codec (recorded t) method params)
        (λ raw. lift (or_failure (decode raw))) (Advances-call_server method params)
        (λ raw. Advances-lift (or_failure (decode raw)))

  pub Advances-next_id : Advances 1 (next_id codec (recorded t))
  unfolding next_id
  Advances-next_id s b h =
      let up : (s.client.id_ctr + 1) % 2 ^ 64 ≡ s.client.id_ctr + 1 = omega arith in
      (omega arith, omega arith, (Issued-le codec _ _ s.world.1 (omega arith) h.0, h.1))

  pub Advances-call_client_tool :
      (name : Text) (args : Option Value)
      → Advances 2 (call_client_tool codec (recorded t) name args)
  unfolding call_client_tool
  Advances-call_client_tool name args =
      Advances-bind 1 1 (next_id codec (recorded t))
        (λ token.
          decoded_call codec (recorded t) codec.call_tool_json (txt "tools/call")
            (some (call_params codec (recorded t) name args token)))
        Advances-next_id
        (λ token.
          Advances-decoded_call codec.call_tool_json (txt "tools/call")
            (some (call_params codec (recorded t) name args token)))
