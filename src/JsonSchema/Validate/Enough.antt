-- ===== src/JsonSchema/Validate/Enough.antt =====
-- jsonschema/validate.go: the depth that Validate gives its recursion is enough.
use fastmcp.Prelude.{ℕ, zero, suc, ◌≤◌, Text, txt, [], Option, some, ◌≡◌, refl, ap, arith, ◌==◌}
use Prim.Native.Nat.{min}
use fastmcp.Json.{Json, null, boolean, string, array, object, number, Members}
use fastmcp.JsonSchema.{find, as_map}
use fastmcp.JsonSchema.Validate.{
  all_of, any_of, matched, validate_object, validate_array, validate_step, validate_to, validate,
}
use fastmcp.JsonSchema.Validate.Keywords.{
  SchemaLib, ValidationError, require, as_schema_list, or_no_members, no_any_of, one_of_matched,
  depth, depth_members,
}
use fastmcp.JsonSchema.Validate.Agreement.{
  IsBelow, all_of_same, any_of_same, as_schema_list-IsBelow, depth-find, matched_same,
  on_items_same, on_key_same, properties_depth, properties_same,
}

module _ (lib : SchemaLib) (rec other : Members → Json → Text → Option ValidationError) (d : ℕ)
    (agree : (s : Members) (v : Json) (path : Text) → IsBelow d s → rec s v path ≡ other s v path)
    (schema : Members) (below : depth_members schema ≤ d) where
  at_key : (k : Text) (v : Json) → find k schema ≡ some v → depth v ≤ d
  at_key k v e = depth-find k schema v d below e

  object_same :
      (v : Json) (path : Text)
      → validate_object lib rec schema v path ≡ validate_object lib other schema v path
  unfolding validate_object
  object_same (object obj) path =
      rw
        (properties_same lib rec other d agree
          (or_no_members (as_map (find (txt "properties") schema))) obj path
          (properties_depth (find (txt "properties") schema) d (at_key (txt "properties"))))
        refl
  object_same null path = refl
  object_same (boolean b) path = refl
  object_same (number f) path = refl
  object_same (string s) path = refl
  object_same (array vs) path = refl

  array_same :
      (v : Json) (path : Text)
      → validate_array lib rec schema v path ≡ validate_array lib other schema v path
  unfolding validate_array
  array_same (array vs) path =
      rw
        (on_items_same lib rec other d agree (find (txt "items") schema) vs path
          (at_key (txt "items")))
        refl
  array_same null path = refl
  array_same (boolean b) path = refl
  array_same (number f) path = refl
  array_same (string s) path = refl
  array_same (object ms) path = refl

  step_same :
      (v : Json) (path : Text)
      → validate_step lib rec schema v path ≡ validate_step lib other schema v path
  unfolding validate_step
  step_same v path =
      let all =
        on_key_same (find (txt "allOf") schema) (λ raw. all_of lib rec (as_schema_list raw) v path)
          (λ raw. all_of lib other (as_schema_list raw) v path)
          (λ raw e.
            all_of_same lib rec other d agree (as_schema_list raw) v path
              (as_schema_list-IsBelow raw d (at_key (txt "allOf") raw e))) in
      let some_of =
        on_key_same (find (txt "anyOf") schema)
          (λ raw. require (any_of lib rec (as_schema_list raw) v path) path no_any_of)
          (λ raw. require (any_of lib other (as_schema_list raw) v path) path no_any_of)
          (λ raw e.
            ap (λ b. require b path no_any_of)
              (any_of_same lib rec other d agree (as_schema_list raw) v path
                (as_schema_list-IsBelow raw d (at_key (txt "anyOf") raw e)))) in
      let one_of =
        on_key_same (find (txt "oneOf") schema)
          (λ raw.
            require (matched lib rec (as_schema_list raw) v path == 1) path
              (one_of_matched (matched lib rec (as_schema_list raw) v path)))
          (λ raw.
            require (matched lib other (as_schema_list raw) v path == 1) path
              (one_of_matched (matched lib other (as_schema_list raw) v path)))
          (λ raw e.
            ap (λ n. require (n == 1) path (one_of_matched n))
              (matched_same lib rec other d agree (as_schema_list raw) v path
                (as_schema_list-IsBelow raw d (at_key (txt "oneOf") raw e)))) in
      rw (all, some_of, one_of, object_same v path, array_same v path) refl

module _ (lib : SchemaLib) where
  -- Any two depths that are enough for a schema give the same answer.
  validate_to_same :
      (n m : ℕ) (schema : Members) (v : Json) (path : Text)
      → depth (object schema) ≤ n
      → depth (object schema) ≤ m
      → validate_to lib n schema v path ≡ validate_to lib m schema v path
  unfolding validate_to depth
  validate_to_same zero m schema v path h k = absurd (omega arith)
  validate_to_same (suc n) zero schema v path h k = absurd (omega arith)
  validate_to_same (suc n) (suc m) schema v path h k =
      step_same lib (validate_to lib n) (validate_to lib m) (min n m)
        (λ s w at b. validate_to_same n m s w at (omega arith) (omega arith)) schema (omega arith) v
        path

  -- Validate's answer is that of its recursion without a bound: each depth from the schema's own on
  -- gives it, so no sub-schema is left out.
  pub validate_enough :
      (n : ℕ) (schema : Members) (v : Json)
      → depth (object schema) ≤ n
      → validate_to lib n schema v [] ≡ validate lib schema v
  unfolding validate
  validate_enough n schema v h =
      validate_to_same n (depth (object schema)) schema v [] h (omega arith)
