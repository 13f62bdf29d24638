-- ===== src/Tests/Batches.antt =====
-- A run of contrib/bulk.go: a client whose second call fails.
use fastmcp.Prelude.{
  ℕ, suc, Text, txt, text_eq, false, List, [], ◌∷◌, ◌++◌, Option, none, Result, done, failed,
  if◌then◌else◌,
}
use fastmcp.Rpc.{Value, null}
use fastmcp.Bulk.{ToolCall, Called, default_bulk_options, BulkOptions, call_sequential}
use fastmcp.Bulk.Sequential.{IsBatch, Runs, call_sequential-IsBatch}

abbrev client : Text → Value → ℕ → Result Called × ℕ
client tool args s = (
  if text_eq tool (txt "bad")
      then failed (txt "connection closed")
      else done (record { content = []; structured_content = []; is_error = false }),
  suc s,
)

abbrev clock : ℕ → ℕ
clock s = s

abbrev lasting : ℕ → Option Text
lasting s = none

abbrev quoted : Text → Text
quoted t = b'"' ∷ t ++ b'"' ∷ []

abbrev batch : List ToolCall
batch =
    record { tool = txt "good"; arguments = null }
    ∷ record { tool = txt "bad"; arguments = null }
    ∷ record { tool = txt "good"; arguments = null }
    ∷ []

abbrev strict : BulkOptions
strict = record default_bulk_options { continue_on_error = false }

call_sequential-IsBatch_example :
    IsBatch client clock lasting quoted strict batch
      (call_sequential client clock lasting quoted strict batch 0)
    × Runs client clock lasting quoted strict batch 0
        (call_sequential client clock lasting quoted strict batch 0).0.0
        (call_sequential client clock lasting quoted strict batch 0).1
call_sequential-IsBatch_example = call_sequential-IsBatch client clock lasting quoted strict batch 0
