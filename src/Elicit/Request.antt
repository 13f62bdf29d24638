-- ===== src/Elicit/Request.antt =====
-- elicit/elicit.go and elicit/typed.go: Elicit, and its helpers for one value. The requester that the
-- context carries is a parameter or nil, with a state of its own; so is json.Unmarshal into a destination,
-- which may write to it and then fail. A *Schema is not nil.
use fastmcp.Prelude.{
  Text, txt, text_eq, Bool, true, false, ◌&&◌, List, [], Option, none, some, Result, done, failed,
  if◌then◌else◌,
}
use fastmcp.Json.{Json, object, Members, no_members, member_then}
use fastmcp.Elicit.{ElicitField, string_field, boolean_field, enum_field}
use fastmcp.Elicit.Struct.{SourceType, schema_from_struct}

pub data RequestedSchema : Type 0 where
  field_schema : List ElicitField → RequestedSchema
  map_schema : Members → RequestedSchema
  raw_schema : Text → RequestedSchema

-- the schema argument of Elicit, by its Go type
pub data SchemaArgument : Type 0 where
  nil_schema : SchemaArgument
  requested : RequestedSchema → SchemaArgument
  struct_value : SourceType → SchemaArgument

pub record ElicitRequest : Type 0 where
  pub message : Text
  pub requested_schema : RequestedSchema

pub record ElicitResult : Type 0 where
  pub action : Text
  pub content : Members

pub data ElicitError : Type 0 where
  no_requester : ElicitError
  failure : Text → ElicitError

-- `(Action, error)`, the destination and the requester's state
pub record Elicited (W D : Type 0) : Type 0 where
  pub action : Text
  pub error : Option ElicitError
  pub dest : D
  pub world : W

pub record Requester (W : Type 0) : Type 0 where
  -- Request of a method and its parameters
  pub request : Text → ElicitRequest → W → Result Text × W

pub record ElicitCodec (D : Type 0) : Type 0 where
  pub result_json : Text → Result ElicitResult
  pub marshal : Json → Result Text
  -- json.Unmarshal into the destination: what it is then, and the error
  pub unmarshal : Text → D → D × Option Text

abbrev pub reflected_schema : Result (List ElicitField) → Result RequestedSchema
reflected_schema (failed m) = failed m
reflected_schema (done fields) = done (field_schema fields)

-- normalizeSchema
unfoldable pub normalize_schema : SchemaArgument → Result RequestedSchema
unfolding schema_from_struct
normalize_schema nil_schema = done (field_schema [])
normalize_schema (requested s) = done s
normalize_schema (struct_value t) = reflected_schema (schema_from_struct t)

abbrev pub has_content : Members → Bool
has_content no_members = false
has_content (member_then k v ms) = true

module _ {W D : Type 0} (codec : ElicitCodec D) where
  abbrev pub with_action : Text → W → D × Option Text → Elicited W D
  with_action action w (d, none) = record { action = action; error = none; dest = d; world = w }
  with_action action w (d, some m) = record {
    action = action;
    error = some (failure m);
    dest = d;
    world = w;
  }

  abbrev pub refused : ElicitError → W → D → Elicited W D
  refused e w d = record { action = []; error = some e; dest = d; world = w }

  -- the content, encoded, into the destination
  abbrev pub filled : ElicitResult → W → D → Result Text → Elicited W D
  filled res w d (failed m) = with_action res.action w (d, some m)
  filled res w d (done b) = with_action res.action w (codec.unmarshal b d)

  unfoldable pub fill_dest : ElicitResult → W → D → Elicited W D
  fill_dest res w d = filled res w d (codec.marshal (object res.content))

  -- `wanted` is whether the destination is not nil
  abbrev pub on_result : Bool → Result ElicitResult → W → D → Elicited W D
  on_result wanted (failed m) w d = refused (failure m) w d
  on_result wanted (done res) w d =
      if text_eq res.action (txt "accept") && (wanted && has_content res.content)
      then fill_dest res w d
      else with_action res.action w (d, none)

  unfoldable pub on_reply : Bool → Result Text → W → D → Elicited W D
  unfolding fill_dest
  on_reply wanted (failed m) w d = refused (failure m) w d
  on_reply wanted (done raw) w d = on_result wanted (codec.result_json raw) w d

  unfoldable pub on_schema :
      Requester W → Text → Result RequestedSchema → Bool → W → D → Elicited W D
  unfolding on_reply
  on_schema r message (failed m) wanted w d = refused (failure m) w d
  on_schema r message (done s) wanted w d =
      let reply =
        r.request (txt "elicitation/create") (record { message = message; requested_schema = s })
          w in
      on_reply wanted reply.0 reply.1 d

  -- Elicit
  unfoldable pub elicit : Option (Requester W) → Text → SchemaArgument → Bool → W → D → Elicited W D
  unfolding normalize_schema on_schema
  elicit none message schema wanted w d = refused no_requester w d
  elicit (some r) message schema wanted w d =
      on_schema r message (normalize_schema schema) wanted w d

abbrev pub single_field : List ElicitField → SchemaArgument
single_field fields = requested (field_schema fields)

-- the destination of a helper is its field Value, which starts as zero
module _ {W : Type 0} where
  unfoldable pub elicit_string :
      ElicitCodec Text → Option (Requester W) → Text → Text → W → Elicited W Text
  unfolding elicit
  elicit_string codec r message prompt w =
      elicit codec r message (single_field (string_field (txt "value") prompt [] true [])) true w []

  unfoldable pub elicit_bool :
      ElicitCodec Bool → Option (Requester W) → Text → Text → W → Elicited W Bool
  unfolding elicit
  elicit_bool codec r message prompt w =
      elicit codec r message (single_field (boolean_field (txt "value") prompt [] true [])) true w
        false

  unfoldable pub elicit_enum :
      ElicitCodec Text → Option (Requester W) → Text → Text → List Text → W → Elicited W Text
  unfolding elicit
  elicit_enum codec r message prompt options w =
      elicit codec r message (single_field (enum_field (txt "value") prompt [] true options []))
        true w []
