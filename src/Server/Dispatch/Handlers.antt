-- ===== src/Server/Dispatch/Handlers.antt =====
-- dispatch.go and completion.go: the methods that run a user's handler or change a session.
use fastmcp.Prelude.{
  ℕ, Text, txt, text_eq, Bool, true, false, ltb, length, take, List, [], ◌∷◌, ◌++◌, Option, none,
  some, Outcome, Result, done, failed, ok, err, Exec, pure, raise, lift, catch, ◌>>=◌,
  if◌then◌else◌, ◌&&◌, not,
}
use fastmcp.Prelude.Dict.{get}
use fastmcp.Prelude.Int.{pos}
use fastmcp.Rpc.{
  Value, null, bool, int, str, strs, arr, obj, content, contents, messages, nil, item, end, field,
  Content, Error, new_error, new_text_content,
}
use fastmcp.Rpc.Codes.{err_invalid_params, err_internal}
use fastmcp.Session.{World, subscribe, unsubscribe}
use fastmcp.Server.{
  Server, Context, Reader, text_handler, blob_handler, ToolEntry, PromptEntry, TemplateEntry,
  CompletionFunc,
}
use fastmcp.Server.Codec.{Codec, CompleteParams}
use fastmcp.Server.Template.{match_template}
use fastmcp.Server.Listing.{field_if}

-- content.go: toContent
unfoldable pub to_content : Codec → Value → List Content
to_content lib null = new_text_content (txt "null") ∷ []
to_content lib (str t) = new_text_content t ∷ []
to_content lib (content c) = c ∷ []
to_content lib (contents cs) = cs
to_content lib v = elim (lib.marshal v) [
  | done b ↦ new_text_content b ∷ []
  | failed e ↦ new_text_content e ∷ []
]

-- a failed Unmarshal is an invalid-params error
abbrev pub or_invalid : {A : Type 0} → Result A → Outcome Error A
or_invalid (done a) = ok a
or_invalid (failed e) = err (new_error err_invalid_params e)

-- `entry, ok := m[key]; if !ok { return an error }`
abbrev pub or_unknown : {A : Type 0} → Text → Text → Option A → Outcome Error A
or_unknown what key none = err (new_error err_invalid_params (what ++ key))
or_unknown what key (some a) = ok a

abbrev pub is_null : Value → Bool
is_null null = true
is_null _ = false

-- what the client sees of a tool's error, and of its result
unfoldable pub tool_error : Text → Value
tool_error e = obj (
    field (txt "content") (contents (new_text_content e ∷ []))
      (field (txt "isError") (bool true) end))

unfoldable pub tool_result : Codec → Bool → Value → Value
tool_result lib structured result = obj (
    field (txt "content") (contents (to_content lib result))
      (field_if (structured && not (is_null result)) (txt "structuredContent") result end))

abbrev pub contents_of : Text → Text → Text → Text → Value
contents_of uri mime_type key body = obj (
    field (txt "contents")
      (arr (
        item
          (obj (
            field (txt "uri") (str uri)
              (field (txt "mimeType") (str mime_type) (field key (str body) end))))
          nil))
      end)

unfoldable pub resource_text_contents : Text → Text → Text → Value
resource_text_contents uri mime_type text = contents_of uri mime_type (txt "text") text

unfoldable pub resource_blob_contents : Codec → Text → Text → Text → Value
resource_blob_contents lib uri mime_type blob =
    contents_of uri mime_type (txt "blob") (lib.base64 blob)

abbrev pub completion_limit : ℕ
completion_limit = 100

unfoldable pub completion : List Text → Value
completion values = obj (
    field (txt "completion")
      (obj (
        field (txt "values") (strs (take completion_limit values)) (
          field (txt "total") (int (pos (length values)))
            (field (txt "hasMore") (bool (ltb completion_limit (length values))) end))))
      end)

module _ {W : Type 0} where
  -- run the tool: an error of its handler is a result
  unfoldable pub run_tool : Codec → Context → Text → ToolEntry W → Exec (World W) Error Value
  run_tool lib c arguments tool =
      catch (tool.call c arguments) (λ e. pure (tool_error e))
        (λ result. pure (tool_result lib tool.structured result))

  unfoldable pub handle_tools_call : Codec → Server W → Context → Text → Exec (World W) Error Value
  handle_tools_call lib s c params = do
    p ← lift (or_invalid (lib.call_tool_params params))
    tool ← lift (or_unknown (txt "unknown tool: ") p.name (get p.name s.tools))
    run_tool lib c p.arguments tool

  -- an error of the handler is an internal error
  unfoldable pub read_with :
      {A : Type 0} → Codec → Context → Text → Text → Reader W A → A → Exec (World W) Error Value
  read_with lib c uri mime_type (text_handler h) a =
      catch (h c a) (λ e. raise (new_error err_internal e))
        (λ text. pure (resource_text_contents uri mime_type text))
  read_with lib c uri mime_type (blob_handler h) a =
      catch (h c a) (λ e. raise (new_error err_internal e))
        (λ blob. pure (resource_blob_contents lib uri mime_type blob))

  -- the loop over the templates: the first that matches is read
  unfoldable pub read_templates :
      Codec → Context → Text → List (TemplateEntry W) → Exec (World W) Error Value
  read_templates lib c uri [] =
      raise (new_error err_invalid_params (txt "unknown resource: " ++ uri))
  read_templates lib c uri (t ∷ ts) = elim (match_template t.re uri) [
    | none ↦ read_templates lib c uri ts
    | some vars ↦ read_with lib c uri t.mime_type t.reader vars
  ]

  unfoldable pub read_uri : Codec → Server W → Context → Text → Exec (World W) Error Value
  read_uri lib s c uri = elim (get uri s.resources) [
    | some static ↦ read_with lib c uri static.mime_type static.reader tt
    | none ↦ read_templates lib c uri s.templates
  ]

  unfoldable pub handle_resources_read :
      Codec → Server W → Context → Text → Exec (World W) Error Value
  handle_resources_read lib s c params = do
    uri ← lift (or_invalid (lib.uri_params params))
    read_uri lib s c uri

  -- `if c.conn != nil { … }`
  abbrev pub on_conn : Option ℕ → (ℕ → World W → World W) → Exec (World W) Error Value
  on_conn none change w = (ok (obj end), w)
  on_conn (some i) change w = (ok (obj end), change i w)

  unfoldable pub handle_subscribe : Codec → Context → Text → Exec (World W) Error Value
  handle_subscribe lib c params = do
    uri ← lift (or_invalid (lib.uri_params params))
    on_conn c.conn (λ i w. subscribe i uri w)

  unfoldable pub handle_unsubscribe : Codec → Context → Text → Exec (World W) Error Value
  handle_unsubscribe lib c params = do
    uri ← lift (or_invalid (lib.uri_params params))
    on_conn c.conn (λ i w. unsubscribe i uri w)

  unfoldable pub handle_prompts_get : Codec → Server W → Context → Text → Exec (World W) Error Value
  handle_prompts_get lib s c params = do
    p ← lift (or_invalid (lib.get_prompt_params params))
    prompt ← lift (or_unknown (txt "unknown prompt: ") p.name (get p.name s.prompts))
    catch (prompt.handler c p.arguments) (λ e. raise (new_error err_internal e))
        (λ msgs. pure (
          obj (
            field (txt "description") (str prompt.description)
              (field (txt "messages") (messages msgs) end))))

  -- the callback of the first template with this text, if it has one
  unfoldable pub template_completer : Text → List (TemplateEntry W) → Option (CompletionFunc W)
  template_completer uri [] = none
  template_completer uri (t ∷ ts) =
      if text_eq t.template uri then t.completer else template_completer uri ts

  abbrev pub completer_in : Option (PromptEntry W) → Option (CompletionFunc W)
  completer_in none = none
  completer_in (some pr) = pr.completer

  unfoldable pub completer_of : Server W → CompleteParams → Option (CompletionFunc W)
  completer_of s p =
      if text_eq p.ref.type (txt "ref/prompt")
      then completer_in (get p.ref.name s.prompts)
      else if text_eq p.ref.type (txt "ref/resource")
      then template_completer p.ref.uri s.templates
      else none

  -- no callback, no values
  unfoldable pub suggestions :
      Option (CompletionFunc W) → Context → Text → Text → Exec (World W) ⊥ (List Text)
  suggestions none c name value = pure []
  suggestions (some f) c name value = f c name value

  unfoldable pub handle_complete : Codec → Server W → Context → Text → Exec (World W) Error Value
  handle_complete lib s c params = do
    p ← lift (or_invalid (lib.complete_params params))
    catch (suggestions (completer_of s p) c p.argument.name p.argument.value) (λ e. absurd e)
        (λ values. pure (completion values))
