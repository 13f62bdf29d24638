-- ===== src/Http/Single.antt =====
-- What a POST of http.go is answered, by the kind of its body.
use fastmcp.Prelude.{
  Text, take, false, Option, Outcome, ok, err, panic, done, continue, pure, ◌≡◌, refl,
}
use fastmcp.Rpc.{Request, Response}
use fastmcp.Session.{World}
use fastmcp.Server.{Server}
use fastmcp.Server.Codec.{Codec}
use fastmcp.Server.Dispatch.{dispatch}
use fastmcp.Uri.Placeholders.{trim_space}
use fastmcp.Http.{
  HttpCodec, HttpAnswer, post_context, handle_http_post, handle_http_single, starts_array,
  body_limit, answer_one,
}

abbrev pub answered : Outcome ⊥ (Option Response) → Outcome ⊥ HttpAnswer
answered (ok o) = ok (answer_one o)
answered (err e) = err e
answered (panic m) = panic m

continue-answered :
    {S : Type 0} (o : Outcome ⊥ (Option Response)) (s : S)
    → continue {E = ⊥} o (λ r. pure (answer_one r)) s ≡ (answered o, s)
continue-answered (ok o) s = refl
continue-answered (err e) s = absurd e
continue-answered (panic m) s = refl

module _ {W : Type 0} (lib : Codec) (json : HttpCodec) (s : Server W) where
  -- A POST with one request is that request's dispatch, its answer being the body.
  pub handle_http_post-dispatch :
      (body text : Text) (req : Request) (w : World W)
      → trim_space (take body_limit body) ≡ text
      → starts_array text ≡ false
      → json.request_json text ≡ done req
      → handle_http_post lib json s (done body) w ≡ (
        answered (dispatch lib s (post_context req) w).0,
        (dispatch lib s (post_context req) w).1,
      )
  unfolding handle_http_post
  handle_http_post-dispatch body text req w trimmed single decoded = rw trimmed (
      rw single (
        rw (decoded, handle_http_single)
          (continue-answered (dispatch lib s (post_context req) w).0
            (dispatch lib s (post_context req) w).1)))
