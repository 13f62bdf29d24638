-- ===== src/Tests/Logging.antt =====
-- Runs of mcplog and mcperror.
use fastmcp.Prelude.{txt, List, [], ◌∷◌, ◌++◌, some, ◌≡◌}
use fastmcp.Rpc.{str}
use fastmcp.Mcplog.{LogMessage, new_logger}
use fastmcp.Mcplog.Filter.{LogCall, change, emission, run_calls, passing, deliver, logger_passes}

abbrev calls : List LogCall
calls =
    emission 0 (str (txt "hidden"))
    ∷ emission 1 (str (txt "shown"))
    ∷ change 4
    ∷ emission 1 (str (txt "now hidden"))
    ∷ []

abbrev collect_all : LogMessage → List LogMessage → List LogMessage
collect_all m ms = ms ++ m ∷ []

logger_passes_example :
    run_calls calls (new_logger (txt "test") 1 (some collect_all)) []
    ≡ deliver collect_all (passing (txt "test") 1 calls) []
logger_passes_example = logger_passes (txt "test") 1 collect_all calls []
