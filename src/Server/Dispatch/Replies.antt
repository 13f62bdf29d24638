-- ===== src/Server/Dispatch/Replies.antt =====
-- Dispatch of dispatch.go: which requests are answered, and the shape of an answer.
use fastmcp.Prelude.{
  Text, txt, text_eq_iff, Bool-cases, text_eq_ne, true, false, List, [], ◌∷◌, ◌++◌, Option, none,
  some, Outcome, ok, err, panic, ◌≡◌, ◌≢◌, ◌⊎◌, inl, inr, refl, arith,
}
use fastmcp.Rpc.{
  Value, null, Error, Request, Response, is_notification, jsonrpc_version, new_error,
  error_response,
}
use fastmcp.Rpc.Codes.{err_method_not_found}
use fastmcp.Session.{World}
use fastmcp.Server.{Server, Context}
use fastmcp.Server.Codec.{Codec}
use fastmcp.Server.Registry.{mem_text}
use fastmcp.Server.Dispatch.{route, reply, dispatch}

-- The methods of the protocol that the server answers.
abbrev pub methods : List Text
methods =
    txt "initialize"
    ∷ txt "notifications/initialized"
    ∷ txt "notifications/cancelled"
    ∷ txt "notifications/progress"
    ∷ txt "ping"
    ∷ txt "tools/list"
    ∷ txt "tools/call"
    ∷ txt "resources/list"
    ∷ txt "resources/templates/list"
    ∷ txt "resources/read"
    ∷ txt "resources/subscribe"
    ∷ txt "resources/unsubscribe"
    ∷ txt "prompts/list"
    ∷ txt "prompts/get"
    ∷ txt "completion/complete"
    ∷ []

abbrev IsNoneOf : Text → List Text → Type 0
IsNoneOf m [] = Unit
IsNoneOf m (k ∷ ks) = (m ≢ k) × IsNoneOf m ks

IsNoneOf-mem_text : (m : Text) (ks : List Text) → mem_text m ks ≡ false → IsNoneOf m ks
unfolding mem_text
IsNoneOf-mem_text m [] h = tt
IsNoneOf-mem_text m (k ∷ ks) h =
    (ground (arith, text_eq_iff k m), IsNoneOf-mem_text m ks (ground arith))

-- An answer to a request: its id and version, and at most one of result and error.
pub record Answers (req : Request) (resp : Response) : Type 0 where
  pub same_id : resp.id ≡ req.id
  pub version : resp.jsonrpc ≡ jsonrpc_version
  pub exclusive : (resp.error ≡ none) ⊎ (resp.result ≡ null)

-- Either the handler panicked, or a notification got no answer and a request got one.
abbrev pub IsAnswered : Request → Outcome ⊥ (Option Response) → Type 0
IsAnswered req (ok none) = is_notification req ≡ true
IsAnswered req (ok (some resp)) = (is_notification req ≡ false) × Answers req resp
IsAnswered req (err e) = ⊥
IsAnswered req (panic m) = Unit

reply-IsAnswered : (req : Request) (r : Outcome Error Value) → IsAnswered req (reply req r)
reply-IsAnswered req (ok v) = elim (Bool-cases (is_notification req)) [
  | inl n ↦ rw n n
  | inr n ↦ rw n (n, record { same_id = refl; version = refl; exclusive = inl refl })
]
reply-IsAnswered req (err e) = elim (Bool-cases (is_notification req)) [
  | inl n ↦ rw n n
  | inr n ↦ rw n (n, record { same_id = refl; version = refl; exclusive = inr refl })
]
reply-IsAnswered req (panic m) = tt

module _ {W : Type 0} (lib : Codec) (s : Server W) where
  -- A notification is never answered; a request, unless its handler panics, is answered with its own
  -- id, and never by both a result and an error.
  pub dispatch-IsAnswered : (c : Context) (w : World W) → IsAnswered c.req (dispatch lib s c w).0
  unfolding dispatch
  dispatch-IsAnswered c w = reply-IsAnswered c.req (route lib s c c.req.method c.req.params w).0

  route_unknown :
      (c : Context) (m params : Text) (w : World W)
      → IsNoneOf m methods
      → route lib s c m params w
        ≡ (err (new_error err_method_not_found (txt "method not found: " ++ m)), w)
  unfolding route
  route_unknown c m params w h = simp (
    text_eq_ne m _ h.0,
    text_eq_ne m _ h.1.0,
    text_eq_ne m _ h.1.1.0,
    text_eq_ne m _ h.1.1.1.0,
    text_eq_ne m _ h.1.1.1.1.0,
    text_eq_ne m _ h.1.1.1.1.1.0,
    text_eq_ne m _ h.1.1.1.1.1.1.0,
    text_eq_ne m _ h.1.1.1.1.1.1.1.0,
    text_eq_ne m _ h.1.1.1.1.1.1.1.1.0,
    text_eq_ne m _ h.1.1.1.1.1.1.1.1.1.0,
    text_eq_ne m _ h.1.1.1.1.1.1.1.1.1.1.0,
    text_eq_ne m _ h.1.1.1.1.1.1.1.1.1.1.1.0,
    text_eq_ne m _ h.1.1.1.1.1.1.1.1.1.1.1.1.0,
    text_eq_ne m _ h.1.1.1.1.1.1.1.1.1.1.1.1.1.0,
    text_eq_ne m _ h.1.1.1.1.1.1.1.1.1.1.1.1.1.1.0,
  )

  -- A request for a method outside `methods` is answered by the error -32601, and changes nothing.
  pub dispatch_unknown :
      (c : Context) (w : World W)
      → is_notification c.req ≡ false
      → mem_text c.req.method methods ≡ false
      → dispatch lib s c w ≡ (
        ok (
            some (
              error_response c.req.id
                (new_error err_method_not_found (txt "method not found: " ++ c.req.method)))),
        w,
      )
  unfolding dispatch
  dispatch_unknown c w request h =
      rw (route_unknown c c.req.method c.req.params w (IsNoneOf-mem_text c.req.method methods h))
        (rw request)
