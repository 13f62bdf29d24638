-- ===== src/Mcperror/Codes.antt =====
-- Codes through conversion and wrapping, and default messages, of mcperror/mcperror.go.
use fastmcp.Prelude.{
  Text, true, List, [], ◌∷◌, Option, none, some, Option-cases, inl, inr, ◌≡◌, ◌↔◌, refl,
}
use fastmcp.Prelude.Int.{ℤ, pos, int_eq_iff}
use fastmcp.Rpc.{Value}
use fastmcp.Mcperror.{
  McpError, GoError, protocol, wrapping, as_mcp, is_same, with_data, with_message, parse_error,
  invalid_request, method_not_found, invalid_params, internal_error, request_cancelled,
  request_timeout, code_text, from_error, code_of_error,
}

-- an error wrapped under each of the texts
abbrev pub wrapped_in : List Text → GoError → GoError
wrapped_in [] e = e
wrapped_in (t ∷ ts) e = wrapping t (wrapped_in ts e)

as_mcp-wrapped_in : (ts : List Text) (e : GoError) → as_mcp (wrapped_in ts e) ≡ as_mcp e
unfolding as_mcp
as_mcp-wrapped_in [] e = refl
as_mcp-wrapped_in (t ∷ ts) e = as_mcp-wrapped_in ts e

-- Is compares codes alone: a target that carries a protocol error at any depth of wrapping, with any
-- message and data put in its place, is the same as an error exactly if their codes are equal.
pub is_same_iff :
    (e target : McpError) (ts : List Text) (message : Text) (v : Value)
    → (is_same e (wrapped_in ts (protocol (with_data v (with_message message target)))) ≡ true)
      ↔ (target.code ≡ e.code)
unfolding is_same
is_same_iff e target ts message v =
    rw (as_mcp-wrapped_in ts (protocol (with_data v (with_message message target))), is_same)
      (unfold as_mcp in int_eq_iff target.code e.code)

abbrev pub converted_code : Option McpError → ℤ
converted_code none = pos 0
converted_code (some m) = m.code

code-converted : (o : Option GoError) → code_of_error o ≡ converted_code (from_error o)
unfolding code_of_error from_error
code-converted none = refl
code-converted (some e) = elim (Option-cases (as_mcp e)) [
  | inl h ↦ rw (h, code_of_error, from_error)
  | inr (m, h) ↦ rw (h, code_of_error, from_error)
]

-- Code is the code of what FromError makes of an error, and 0 for nil; an error that carries a protocol
-- error at any depth of wrapping is converted to that error itself.
pub code_of_converted :
    (o : Option GoError) (m : McpError) (ts : List Text)
    → (code_of_error o ≡ converted_code (from_error o))
      × (from_error (some (wrapped_in ts (protocol m))) ≡ some m)
unfolding code_of_error from_error
code_of_converted o m ts =
    (code-converted o, rw (as_mcp-wrapped_in ts (protocol m), from_error) (unfold as_mcp in refl))

-- The constructors whose message may be left out.
pub data Kind : Type 0 where
  parse : Kind
  request_kind : Kind
  method_kind : Kind
  params_kind : Kind
  internal : Kind
  cancelled : Kind
  timeout : Kind

unfoldable pub construct : Kind → Text → McpError
construct parse = parse_error
construct request_kind = invalid_request
construct method_kind = method_not_found
construct params_kind = invalid_params
construct internal = internal_error
construct cancelled = request_cancelled
construct timeout = request_timeout

-- An error made without a message has the text of its code as its message, and making it with a message
-- gives the same code.
pub message-construct :
    (k : Kind) (message : Text)
    → ((construct k []).message ≡ code_text (construct k message).code)
      × ((construct k []).code ≡ (construct k message).code)
unfolding construct code_text
message-construct parse message = (refl, refl)
message-construct request_kind message = (refl, refl)
message-construct method_kind [] = (refl, refl)
message-construct method_kind (c ∷ s) = (refl, refl)
message-construct params_kind message = (refl, refl)
message-construct internal message = (refl, refl)
message-construct cancelled message = (refl, refl)
message-construct timeout message = (refl, refl)
