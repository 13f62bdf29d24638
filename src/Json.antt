-- ===== src/Json.antt =====
-- A decoded JSON value: what encoding/json puts into an `any`. A number is the bits of its float64, and
-- an object its members.
use fastmcp.Prelude.{ℕ, Text, text_eq, Bool, if◌then◌else◌}

mutual
  pub data Json : Type 0 where
    null : Json
    boolean : Bool → Json
    number : ℕ → Json
    string : Text → Json
    array : Items → Json
    object : Members → Json

  pub data Items : Type 0 where
    no_items : Items
    item_then : Json → Items → Items

  pub data Members : Type 0 where
    no_members : Members
    member_then : Text → Json → Members → Members

-- `m[key]`, which is nil for a missing key
unfoldable pub lookup : Text → Members → Json
lookup k no_members = null
lookup k (member_then j v ms) = if text_eq j k then v else lookup k ms
