-- ===== src/Bulk.antt =====
-- contrib/bulk.go: a batch of tool calls, one after the other. The client's CallTool, the clock and the
-- state of the batch's context are parameters, the clock being monotonic; an error is its text, and a joined error the list of
-- its parts.
pub mod Sequential
use fastmcp.Prelude.{
  ℕ, zero, suc, ◌-◌, ◌<◌, Text, txt, text_eq, is_empty, Bool, true, false, not, ◌&&◌, ◌||◌, List,
  [], ◌∷◌, ◌++◌, Option, none, some, is_some, Result, done, failed, ltb, if◌then◌else◌,
}
use fastmcp.Rpc.{Value, Content}

pub record ToolCall : Type 0 where
  pub tool : Text
  pub arguments : Value

pub record ToolResult : Type 0 where
  pub tool : Text
  pub arguments : Value
  pub is_error : Bool
  pub content : List Content
  pub structured_content : Text
  pub error : Option Text
  pub duration : ℕ

-- client.CallToolResult
pub record Called : Type 0 where
  pub content : List Content
  pub structured_content : Text
  pub is_error : Bool

pub record BulkOptions : Type 0 where
  pub parallel : Bool
  pub max_concurrency : ℕ
  pub continue_on_error : Bool

abbrev pub default_bulk_options : BulkOptions
default_bulk_options = record { parallel = false; max_concurrency = 0; continue_on_error = true }

-- ToolResult.Failed
abbrev pub has_failed : ToolResult → Bool
has_failed r = r.is_error || is_some r.error

-- ToolResult.Text: i is the index of a block, and `out` the text so far
unfoldable pub text_from : ℕ → Text → List Content → Text
text_from i out [] = out
text_from i out (c ∷ cs) =
    if not (text_eq c.type (txt "text"))
    then text_from (suc i) out cs
    else text_from (suc i)
        ((if ltb 0 i && not (is_empty out) then out ++ 10 ∷ [] else out) ++ c.text) cs

unfoldable pub text_of : ToolResult → Text
unfolding text_from
text_of r = text_from 0 [] r.content

-- ToolResult.failure; `quote` is the %q of fmt
unfoldable pub failure : (Text → Text) → ToolResult → Option Text
unfolding text_of
failure quote r = elim r.error [
  | some e ↦ some e
  | none ↦
      if r.is_error
      then some (txt "tool " ++ quote r.tool ++ txt " reported an error: " ++ text_of r)
      else none
]

-- `append(errs, r.failure())`
abbrev pub append_failure : Option Text → List Text → List Text
append_failure none errs = errs
append_failure (some e) errs = e ∷ errs

abbrev pub prepend :
    {S : Type 0}
    → ToolResult
    → Option Text
    → (List ToolResult × List Text) × S
    → (List ToolResult × List Text) × S
prepend r f out = ((r ∷ out.0.0, append_failure f out.0.1), out.1)

abbrev pub result_of : ToolCall → ℕ → Result Called → ToolResult
result_of call duration (failed e) = record {
  tool = call.tool;
  arguments = call.arguments;
  is_error = false;
  content = [];
  structured_content = [];
  error = some e;
  duration = duration;
}
result_of call duration (done res) = record {
  tool = call.tool;
  arguments = call.arguments;
  is_error = res.is_error;
  content = res.content;
  structured_content = res.structured_content;
  error = none;
  duration = duration;
}

module _ {S : Type 0} (call_tool : Text → Value → S → Result Called × S) (now : S → ℕ)
    (ctx_err : S → Option Text) (quote : Text → Text) where
  unfoldable pub invoke : ToolCall → S → ToolResult × S
  invoke call s =
      let (res, s') = call_tool call.tool call.arguments s in
      (result_of call (now s' - now s) res, s')

  -- The loop of callSequential, with the results and the errors that it appends.
  unfoldable pub call_sequential :
      BulkOptions → List ToolCall → S → (List ToolResult × List Text) × S
  unfolding invoke failure
  call_sequential opts [] s = (([], []), s)
  call_sequential opts (call ∷ calls) s = elim (ctx_err s) [
    | some e ↦ (([], e ∷ []), s)
    | none ↦
        let (r, s') = invoke call s in
        elim (has_failed r && not opts.continue_on_error) [
          | true ↦ prepend r (failure quote r) (([], []), s')
          | false ↦ prepend r (failure quote r) (call_sequential opts calls s')
        ]
  ]
