-- ===== src/Mcperror.antt =====
-- mcperror/mcperror.go: typed protocol errors. A Go error is one of these, an error that wraps another
-- under a text of its own, or an error of text only.
pub mod Codes
use fastmcp.Prelude.{
  Text, txt, is_empty, Bool, true, false, ◌&&◌, List, [], ◌∷◌, ◌++◌, Option, none, some, leb,
  if◌then◌else◌,
}
use fastmcp.Prelude.Int.{ℤ, pos, negsuc, int_eq}
use fastmcp.Rpc.{Value, null, str, obj, end, field}

pub record McpError : Type 0 where
  pub code : ℤ
  pub message : Text
  pub error_data : Value

pub data GoError : Type 0 where
  protocol : McpError → GoError
  wrapping : Text → GoError → GoError
  textual : Text → GoError

abbrev pub code_parse_error : ℤ
code_parse_error = negsuc 32699

abbrev pub code_invalid_request : ℤ
code_invalid_request = negsuc 32599

abbrev pub code_method_not_found : ℤ
code_method_not_found = negsuc 32600

abbrev pub code_invalid_params : ℤ
code_invalid_params = negsuc 32601

abbrev pub code_internal_error : ℤ
code_internal_error = negsuc 32602

abbrev pub code_resource_not_found : ℤ
code_resource_not_found = negsuc 32001

abbrev pub code_request_cancelled : ℤ
code_request_cancelled = negsuc 32799

abbrev pub code_request_timeout : ℤ
code_request_timeout = negsuc 32000

-- errors.As with a target of this type: the first such error of the chain
unfoldable pub as_mcp : GoError → Option McpError
as_mcp (protocol e) = some e
as_mcp (wrapping t e) = as_mcp e
as_mcp (textual t) = none

-- err.Error() of an error that has none of these in its chain
abbrev pub text_of : GoError → Text
text_of (protocol e) = e.message
text_of (wrapping t e) = t
text_of (textual t) = t

-- Error.Is
unfoldable pub is_same : McpError → GoError → Bool
unfolding as_mcp
is_same e target = elim (as_mcp target) [ none ↦ false | some t ↦ int_eq t.code e.code ]

abbrev pub with_data : Value → McpError → McpError
with_data v e = record { code = e.code; message = e.message; error_data = v }

abbrev pub with_message : Text → McpError → McpError
with_message message e = record { code = e.code; message = message; error_data = e.error_data }

-- New
abbrev pub new_mcp : ℤ → Text → McpError
new_mcp code message = record { code = code; message = message; error_data = null }

abbrev pub new_default : ℤ → Text → Text → McpError
new_default code message fallback = record {
  code = code;
  message = if is_empty message then fallback else message;
  error_data = null;
}

abbrev pub parse_error : Text → McpError
parse_error message = new_default code_parse_error message (txt "Parse error")

abbrev pub invalid_request : Text → McpError
invalid_request message = new_default code_invalid_request message (txt "Invalid Request")

abbrev pub method_not_found : Text → McpError
method_not_found method =
    if is_empty method
    then new_mcp code_method_not_found (txt "Method not found")
    else new_mcp code_method_not_found (txt "Method not found: " ++ method)

abbrev pub invalid_params : Text → McpError
invalid_params message = new_default code_invalid_params message (txt "Invalid params")

abbrev pub internal_error : Text → McpError
internal_error message = new_default code_internal_error message (txt "Internal error")

abbrev pub resource_not_found : Text → McpError
resource_not_found uri =
    let e = new_mcp code_resource_not_found (txt "Resource not found: " ++ uri) in
    if is_empty uri then e else record e { error_data = obj (field (txt "uri") (str uri) end) }

abbrev pub request_cancelled : Text → McpError
request_cancelled message = new_default code_request_cancelled message (txt "Request cancelled")

abbrev pub request_timeout : Text → McpError
request_timeout message = new_default code_request_timeout message (txt "Request timed out")

-- code >= -32099 && code <= -32000
abbrev pub in_server_range : ℤ → Bool
in_server_range (pos n) = false
in_server_range (negsuc n) = leb 31999 n && leb n 32098

unfoldable pub code_text : ℤ → Text
unfolding int_eq
code_text code =
    if int_eq code code_parse_error
    then txt "Parse error"
    else if int_eq code code_invalid_request
    then txt "Invalid Request"
    else if int_eq code code_method_not_found
    then txt "Method not found"
    else if int_eq code code_invalid_params
    then txt "Invalid params"
    else if int_eq code code_internal_error
    then txt "Internal error"
    else if int_eq code code_resource_not_found
    then txt "Resource not found"
    else if int_eq code code_request_cancelled
    then txt "Request cancelled"
    else if int_eq code code_request_timeout
    then txt "Request timed out"
    else if in_server_range code
    then txt "Server error"
    else txt "Unknown error"

-- FromError and Code; none is nil
unfoldable pub from_error : Option GoError → Option McpError
unfolding as_mcp
from_error none = none
from_error (some e) = elim (as_mcp e) [
  | some m ↦ some m
  | none ↦ some (new_mcp code_internal_error (text_of e))
]

unfoldable pub code_of_error : Option GoError → ℤ
unfolding as_mcp
code_of_error none = pos 0
code_of_error (some e) = elim (as_mcp e) [ some m ↦ m.code | none ↦ code_internal_error ]
