-- ===== src/Http/Batches.antt =====
-- Which requests of a batch of http.go are answered.
use fastmcp.Prelude.{
  List, [], ◌∷◌, Option, none, some, Outcome, ok, err, panic, Exec, continue, ◌≡◌, refl, ap,
  if◌then◌else◌,
}
use fastmcp.Rpc.{Request, Response, is_notification}
use fastmcp.Session.{World}
use fastmcp.Server.{Server}
use fastmcp.Server.Codec.{Codec}
use fastmcp.Server.Dispatch.{dispatch}
use fastmcp.Server.Dispatch.Replies.{IsAnswered, Answers, dispatch-IsAnswered}
use fastmcp.Http.{HttpCodec, dispatch_all, post_context, append_some}

-- the requests that want an answer
unfoldable pub expecting : List Request → List Request
expecting [] = []
expecting (req ∷ reqs) = if is_notification req then expecting reqs else req ∷ expecting reqs

-- one answer for each request, in order
abbrev pub AnswersAll : List Request → List Response → Type 0
AnswersAll [] [] = Unit
AnswersAll [] (r ∷ rs) = ⊥
AnswersAll (q ∷ qs) [] = ⊥
AnswersAll (q ∷ qs) (r ∷ rs) = Answers q r × AnswersAll qs rs

AnswersAll-append_some :
    (req : Request) (reqs : List Request) (o : Option Response) (rs : List Response)
    → IsAnswered req (ok o)
    → AnswersAll (expecting reqs) rs
    → AnswersAll (expecting (req ∷ reqs)) (append_some o rs)
unfolding expecting
AnswersAll-append_some req reqs none rs h hs = rw h hs
AnswersAll-append_some req reqs (some r) rs h hs = rw h.0 (h.1, hs)

bind_ok :
    {S A B : Type 0} (m : Outcome ⊥ A) (f : A → Exec S ⊥ B) (s : S) (b : B) (t : S)
    → continue m f s ≡ (ok b, t)
    → (a : A) × (m ≡ ok a) × (f a s ≡ (ok b, t))
bind_ok (ok a) f s b t h = (a, refl, h)
bind_ok (err e) f s b t h = absurd e
bind_ok (panic m) f s b t h = let clash : ⊥ = cc (ap (λ p. p.0) h) in absurd clash

ok-eq : {A : Type 0} {a b : A} → ◌≡◌ {A = Outcome ⊥ A} (ok a) (ok b) → a ≡ b
ok-eq h = cc h

module _ {W : Type 0} (lib : Codec) (json : HttpCodec) (s : Server W) where
  -- A batch that no handler's panic ends has, in the order of its requests, exactly one answer for each
  -- that is not a notification, with its id.
  pub dispatch_all-AnswersAll :
      (reqs : List Request) (w w' : World W) (rs : List Response)
      → dispatch_all lib json s reqs w ≡ (ok rs, w')
      → AnswersAll (expecting reqs) rs
  unfolding dispatch_all expecting
  dispatch_all-AnswersAll [] w w' rs h =
      let same : [] ≡ rs = ok-eq (ap (λ p. p.0) h) in rw (← same) tt
  dispatch_all-AnswersAll (req ∷ reqs) w w' rs h =
      let first = dispatch lib s (post_context req) w in
      let (o, at, h1) = bind_ok first.0 _ first.1 rs w' h in
      let others = dispatch_all lib json s reqs first.1 in
      let (rest, at_rest, h2) = bind_ok others.0 _ others.1 rs w' h1 in
      let same : append_some o rest ≡ rs = ok-eq (ap (λ p. p.0) h2) in
      let later =
        dispatch_all-AnswersAll reqs first.1 others.1 rest (ap (λ x. (x, others.1)) at_rest) in
      rw (← same) (
        AnswersAll-append_some req reqs o rest
          (rw at at (dispatch-IsAnswered lib s (post_context req) w)) later)
