-- ===== src/Rpc/Contents.antt =====
-- content.go, content_extra.go and prompt.go: the constructors of content blocks, their annotations and
-- kinds. A priority is the bits of a float64; comparing floats is the machine's, so clamping to [0, 1]
-- is a parameter.
use fastmcp.Prelude.{ℕ, Text, txt, text_eq, Bool, ◌||◌, List, [], Option, none, some, ◌≡◌, refl}
use fastmcp.Rpc.{Content, ContentAnnotations, PromptMessage, new_text_content}

-- `Content{Type: type}`
abbrev pub block : Text → Content
block type = record (new_text_content []) { type = type }

abbrev pub new_image_content : Text → Text → Content
new_image_content image mime_type = record (block (txt "image")) {
  content_data = image;
  mime_type = mime_type;
}

abbrev pub new_audio_content : Text → Text → Content
new_audio_content audio mime_type = record (block (txt "audio")) {
  content_data = audio;
  mime_type = mime_type;
}

abbrev pub new_resource_link : Text → Text → Text → Content
new_resource_link uri name mime_type = record (block (txt "resource_link")) {
  uri = uri;
  name = name;
  mime_type = mime_type;
}

abbrev pub new_embedded_resource : Text → Text → Text → Content
new_embedded_resource uri mime_type text = record (block (txt "resource")) {
  resource = some (record { uri = uri; mime_type = mime_type; text = text; blob = [] });
}

abbrev pub new_embedded_blob_resource : Text → Text → Text → Content
new_embedded_blob_resource uri mime_type blob = record (block (txt "resource")) {
  resource = some (record { uri = uri; mime_type = mime_type; text = []; blob = blob });
}

abbrev pub with_annotations : ContentAnnotations → Content → Content
with_annotations a c = record c { annotations = some a }

abbrev pub audience_of : Option ContentAnnotations → List Text
audience_of none = []
audience_of (some a) = a.audience

-- the bits of 0 are 0
abbrev pub priority_of : Option ContentAnnotations → ℕ
priority_of none = 0
priority_of (some a) = a.priority

abbrev pub with_priority : (ℕ → ℕ) → ℕ → Content → Content
with_priority clamp priority c =
    with_annotations (record { audience = audience_of c.annotations; priority = clamp priority }) c

abbrev pub with_audience : List Text → Content → Content
with_audience audience c =
    with_annotations (record { audience = audience; priority = priority_of c.annotations }) c

abbrev pub is_text : Content → Bool
is_text c = text_eq c.type (txt "text")

abbrev pub is_image : Content → Bool
is_image c = text_eq c.type (txt "image")

abbrev pub is_audio : Content → Bool
is_audio c = text_eq c.type (txt "audio")

abbrev pub is_resource : Content → Bool
is_resource c = text_eq c.type (txt "resource") || text_eq c.type (txt "resource_link")

abbrev pub new_user_message : Text → PromptMessage
new_user_message text = record { role = txt "user"; content = new_text_content text }

abbrev pub new_assistant_message : Text → PromptMessage
new_assistant_message text = record { role = txt "assistant"; content = new_text_content text }

-- A priority and an audience are independent: given in either order a block has both, whatever
-- annotations it had; and neither changes its type.
pub annotations_independent :
    (clamp : ℕ → ℕ) (priority : ℕ) (audience : List Text) (c : Content)
    → (with_audience audience (with_priority clamp priority c)
        ≡ with_annotations (record { audience = audience; priority = clamp priority }) c)
      × (with_priority clamp priority (with_audience audience c)
          ≡ with_annotations (record { audience = audience; priority = clamp priority }) c)
      × ((with_audience audience c).type ≡ c.type)
annotations_independent clamp priority audience c = (refl, refl, refl)
