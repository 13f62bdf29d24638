-- ===== src/Tests/Eliciting.antt =====
-- Runs of Elicit and of SchemaFromStruct of elicit.
use fastmcp.Prelude.{
  text_eq, ℕ, suc, Text, txt, true, false, List, [], ◌∷◌, none, some, done, ◌≡◌, refl,
}
use fastmcp.Json.{null, no_members}
use fastmcp.Elicit.Struct.{
  apply_pair, StructField, string_kind, integer_kind, other_kind, pointer_to, struct_type,
  schema_from_struct,
}
use fastmcp.Elicit.Reflection.{schema_from_struct-IsReflection, IsReflection, pointers_to}
use fastmcp.Elicit.Request.{ElicitCodec, Requester, elicit_string, elicit_bool, elicit_enum}
use fastmcp.Elicit.Outcomes.{helpers-IsDecided, IsDecided}

-- a client that answers with an action; its state counts the requests
abbrev client : Text → Requester ℕ
client action = record { request = λ method req n. (done action, suc n) }

abbrev codec_of : {D : Type 0} → D → ElicitCodec D
codec_of d = record {
  result_json = λ raw. done (record { action = raw; content = no_members });
  marshal = λ v. done [];
  unmarshal = λ b old. (d, none);
}

declined :
    elicit_string (codec_of (txt "x")) (some (client (txt "decline"))) (txt "Name?") (txt "Name") 0
    ≡ record { action = txt "decline"; error = none; dest = []; world = 1 }
unfolding elicit_string text_eq
declined = refl

helpers-IsDecided_example :
    IsDecided [] (
      elicit_string
        (codec_of (txt "x"))
        (some (client (txt "decline")))
        (txt "Name?")
        (txt "Name")
        0)
    × IsDecided false
        (elicit_bool (codec_of true) (some (client (txt "decline"))) (txt "Name?") (txt "Name") 0)
    × IsDecided [] (
        elicit_enum
          (codec_of (txt "x"))
          (some (client (txt "decline")))
          (txt "Name?")
          (txt "Name")
          (txt "ann" ∷ txt "bob" ∷ [])
          0)
helpers-IsDecided_example =
    helpers-IsDecided (codec_of (txt "x")) (codec_of true) (some (client (txt "decline")))
      (txt "Name?") (txt "Name") (txt "ann" ∷ txt "bob" ∷ []) 0

abbrev person : List StructField
person =
    record {
      field_name = txt "Name";
      exported = true;
      field_type = string_kind;
      json_tag = txt "name";
      schema_tag = txt "title=Full name";
    }
    ∷ record {
      field_name = txt "secret";
      exported = false;
      field_type = other_kind (txt "map");
      json_tag = [];
      schema_tag = [];
    }
    ∷ record {
      field_name = txt "Age";
      exported = true;
      field_type = pointer_to integer_kind;
      json_tag = txt "age,omitempty";
      schema_tag = [];
    }
    ∷ []

person_schema :
    schema_from_struct (struct_type person)
    ≡ done (
        record {
          name = txt "name";
          type = txt "string";
          title = txt "Full name";
          description = [];
          enum = [];
          default_value = null;
          required = true;
        }
        ∷ record {
          name = txt "age";
          type = txt "integer";
          title = [];
          description = [];
          enum = [];
          default_value = null;
          required = false;
        }
        ∷ [])
unfolding schema_from_struct text_eq apply_pair
person_schema = refl

schema_from_struct-IsReflection_example :
    IsReflection person (schema_from_struct (pointers_to 1 (struct_type person)))
schema_from_struct-IsReflection_example = schema_from_struct-IsReflection 1 person
