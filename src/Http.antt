-- ===== src/Http.antt =====
-- http.go: a POST with one request or a batch, and the other methods. Decoding a body, and reading it, are
-- parameters; white space is ASCII. The stream of a GET is a session (Session.antt) and not modelled here.
pub mod Batches
pub mod Single
use fastmcp.Prelude.{
  ℕ, ◌*◌, Text, txt, text_eq, take, Bool, true, false, List, [], ◌∷◌, Option, none, some, Outcome,
  ok, Result, done, failed, Exec, pure, ◌>>=◌, if◌then◌else◌, ◌==◌,
}
use fastmcp.Rpc.{Request, Response, new_error, error_response}
use fastmcp.Rpc.Codes.{err_parse}
use fastmcp.Session.{World}
use fastmcp.Server.{Server, Context, discard}
use fastmcp.Server.Codec.{Codec}
use fastmcp.Server.Dispatch.{dispatch}
use fastmcp.Uri.Placeholders.{trim_space}

pub record HttpCodec : Type 0 where
  pub request_json : Text → Result Request
  pub batch_json : Text → Result (List Request)

pub data HttpAnswer : Type 0 where
  -- 202 with no body
  nothing : HttpAnswer
  one : Response → HttpAnswer
  many : List Response → HttpAnswer
  -- 405
  not_allowed : HttpAnswer
  -- the stream of a GET
  stream : HttpAnswer

abbrev pub body_limit : ℕ
body_limit = 16 * 1024 * 1024

-- the context of a request in a POST: notifications are discarded
abbrev pub post_context : Request → Context
post_context req = record { req = req; send = discard; conn = none; progress_token = [] }

abbrev pub starts_array : Text → Bool
starts_array [] = false
starts_array (c ∷ s) = c == b'['

-- writeHTTPError with no id
abbrev pub http_error : Text → HttpAnswer
http_error m = one (error_response [] (new_error err_parse m))

abbrev pub append_some : Option Response → List Response → List Response
append_some none rs = rs
append_some (some r) rs = r ∷ rs

abbrev pub answer_one : Option Response → HttpAnswer
answer_one none = nothing
answer_one (some r) = one r

abbrev pub answer_many : List Response → HttpAnswer
answer_many [] = nothing
answer_many (r ∷ rs) = many (r ∷ rs)

module _ {W : Type 0} (lib : Codec) (json : HttpCodec) (s : Server W) where
  -- the loop of handleHTTPBatch
  unfoldable pub dispatch_all : List Request → Exec (World W) ⊥ (List Response)
  unfolding dispatch
  dispatch_all [] = pure []
  dispatch_all (req ∷ reqs) = do
    resp ← dispatch lib s (post_context req)
    responses ← dispatch_all reqs
    pure (append_some resp responses)

  unfoldable pub handle_http_batch : Text → Exec (World W) ⊥ HttpAnswer
  unfolding dispatch_all
  handle_http_batch body = elim (json.batch_json body) [
    | failed m ↦ pure (http_error m)
    | done reqs ↦ do responses ← dispatch_all reqs; pure (answer_many responses)
  ]

  unfoldable pub handle_http_single : Text → Exec (World W) ⊥ HttpAnswer
  unfolding dispatch
  handle_http_single body = elim (json.request_json body) [
    | failed m ↦ pure (http_error m)
    | done req ↦ do resp ← dispatch lib s (post_context req); pure (answer_one resp)
  ]

  -- handleHTTPPost: what reading the body gave, cut at the limit
  unfoldable pub handle_http_post : Result Text → Exec (World W) ⊥ HttpAnswer
  unfolding handle_http_batch handle_http_single
  handle_http_post (failed m) = pure (http_error m)
  handle_http_post (done body) =
      let trimmed = trim_space (take body_limit body) in
      if starts_array trimmed then handle_http_batch trimmed else handle_http_single trimmed

  -- HTTPHandler
  unfoldable pub http_handler : Text → Result Text → Exec (World W) ⊥ HttpAnswer
  unfolding handle_http_post
  http_handler method body =
      if text_eq method (txt "POST")
      then handle_http_post body
      else if text_eq method (txt "GET")
      then pure stream
      else pure not_allowed
