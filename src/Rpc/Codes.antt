-- ===== src/Rpc/Codes.antt =====
-- jsonrpc.go: the error codes.
use fastmcp.Prelude.Int.{ℤ, negsuc}

abbrev pub err_parse : ℤ
err_parse = negsuc 32699

abbrev pub err_invalid_request : ℤ
err_invalid_request = negsuc 32599

abbrev pub err_method_not_found : ℤ
err_method_not_found = negsuc 32600

abbrev pub err_invalid_params : ℤ
err_invalid_params = negsuc 32601

abbrev pub err_internal : ℤ
err_internal = negsuc 32602
