-- ===== src/Tests/Mounting.antt =====
-- Runs of a POST of http.go, and of a server mounted on itself under a prefix.
use fastmcp.Prelude.{
  ℕ, Text, txt, text_eq, true, false, [], ◌∷◌, none, some, Result, done, failed, ◌≡◌, refl,
}
use fastmcp.Prelude.Dict.{get, put}
use fastmcp.Rpc.{Request, new_text_content, result_response, obj, end}
use fastmcp.Server.Registry.{mem_text}
use fastmcp.Server.Dispatch.{dispatch, route}
use fastmcp.Server.Dispatch.Handlers.{to_content}
use fastmcp.Server.Listing.{handle_tools_list}
use fastmcp.Http.{HttpCodec, dispatch_all, post_context}
use fastmcp.Http.Batches.{dispatch_all-AnswersAll, AnswersAll, expecting}
use fastmcp.Mount.{default_config}
use fastmcp.Mount.Delegate.{Wire, ToolInfo, call_tool, list_tools}
use fastmcp.Mount.Delegate.Faithful.{call_tool-passed_on, passed_on}
use fastmcp.Mount.Compose.{Composing, compose_tools}
use fastmcp.Mount.Compose.Tools.{compose_tools-keep}
use fastmcp.Tests.{demo_codec, demo_server, demo_world, greet, whole}

abbrev pub request_of : Text → Text → Request
request_of id method = record {
  jsonrpc = txt "2.0";
  id = id;
  method = method;
  params = txt "greet";
}

-- a body is a brace and the method
abbrev pub read_request : Text → Result Request
read_request [] = failed (txt "unexpected end of JSON input")
read_request (c ∷ method) = done (request_of (txt "1") method)

abbrev pub demo_http : HttpCodec
demo_http = record { request_json = read_request; batch_json = λ b. done [] }

abbrev pub greet_info : ToolInfo
greet_info = record { name = txt "greet"; description = [] }

abbrev pub demo_wire : Wire
demo_wire = record {
  encode_request = λ method params. done (b'{' ∷ method);
  answer_json = λ answer. done (txt "{}", none);
  tools_json = λ raw. done (greet_info ∷ []);
  resources_json = λ raw. done [];
  templates_json = λ raw. done [];
  prompts_json = λ raw. done [];
  tool_result_json = λ raw. done (new_text_content (txt "hello") ∷ [], false);
  contents_json = λ raw. done [];
  messages_json = λ raw. done [];
  arguments_json = λ raw. done end;
  base64_decode = λ b. done b;
  decimal = λ n. [];
}

abbrev pub demo_composing : Composing ℕ
demo_composing = record {
  parent = demo_server;
  taken = record { tools = txt "greet" ∷ []; resources = []; templates = []; prompts = [] };
  rec = record {
    prefix = txt "up";
    live = true;
    tools = [];
    resources = [];
    resource_templates = [];
    prompts = [];
  };
  world = demo_world;
}

dispatch_all-AnswersAll_example :
    AnswersAll
      (expecting (request_of (txt "1") (txt "ping") ∷ request_of [] (txt "ping") ∷ []))
      (result_response (txt "1") (obj end) ∷ [])
unfolding dispatch_all route text_eq
dispatch_all-AnswersAll_example =
    dispatch_all-AnswersAll demo_codec demo_http demo_server
      (request_of (txt "1") (txt "ping") ∷ request_of [] (txt "ping") ∷ []) demo_world demo_world
      (result_response (txt "1") (obj end) ∷ []) refl

call_tool-passed_on_example :
    call_tool demo_codec demo_http demo_wire demo_server (txt "greet") none demo_world ≡ (
      passed_on demo_codec
          (greet.call (post_context (request_of (txt "1") (txt "tools/call"))) [] demo_world).0,
      (greet.call (post_context (request_of (txt "1") (txt "tools/call"))) [] demo_world).1,
    )
unfolding get text_eq to_content
call_tool-passed_on_example =
    call_tool-passed_on demo_codec demo_http demo_wire demo_server (txt "greet") none
      (request_of (txt "1") (txt "tools/call")) [] greet demo_world refl
      (record {
        body = txt "{tools/call";
        text = txt "{tools/call";
        encoded = refl;
        trimmed = refl;
        single = refl;
        parsed = refl;
        method_read = refl;
        id_read = refl;
        params_read = refl;
      })
      (txt "{}", refl, refl)

compose_tools-keep_example :
    get
      (txt "greet")
      (compose_tools demo_codec demo_http demo_wire demo_server whole
        (txt "up")
        default_config
        demo_composing).1.parent.tools
    ≡ some greet
unfolding list_tools dispatch route handle_tools_list get text_eq compose_tools mem_text put
compose_tools-keep_example =
    compose_tools-keep demo_codec demo_http demo_wire demo_server whole (txt "up") default_config
      (greet_info ∷ []) demo_world demo_composing refl
      (compose_tools demo_codec demo_http demo_wire demo_server whole (txt "up") default_config
        demo_composing).1
      (λ e. cc e) refl (txt "greet")
