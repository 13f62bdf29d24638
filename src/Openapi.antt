-- ===== src/Openapi.antt =====
-- openapi/routemap.go: which kind of component a route becomes. Matching a path against a pattern is a
-- parameter, false where the pattern does not compile; strings.EqualFold is of ASCII letters.
use fastmcp.Prelude.{
  Text, txt, text_eq, is_empty, Bool, true, false, not, ◌&&◌, ◌||◌, ◌++◌, List, [], ◌∷◌, map, All,
  ◌≡◌, refl, if◌then◌else◌,
}
use fastmcp.Auth.Bearer.{lower}

pub data RouteType : Type 0 where
  route_tool : RouteType
  route_resource : RouteType
  route_resource_template : RouteType
  route_exclude : RouteType

-- RouteType.String
abbrev pub route_type_string : RouteType → Text
route_type_string route_tool = txt "Tool"
route_type_string route_resource = txt "Resource"
route_type_string route_resource_template = txt "ResourceTemplate"
route_type_string route_exclude = txt "Exclude"

pub record RouteMap : Type 0 where
  pub methods : List Text
  pub pattern_text : Text
  pub tags : List Text
  pub type : RouteType

abbrev pub equal_fold : Text → Text → Bool
equal_fold s t = text_eq (map lower s) (map lower t)

unfoldable pub contains_fold : List Text → Text → Bool
contains_fold [] want = false
contains_fold (s ∷ ss) want = if equal_fold s want then true else contains_fold ss want

abbrev pub some_method : List Text → Text → Bool
some_method [] method = false
some_method (m ∷ ms) method =
    if text_eq m (txt "*") || equal_fold m method then true else some_method ms method

unfoldable pub method_matches : List Text → Text → Bool
method_matches methods method = if is_empty methods then true else some_method methods method

abbrev pub all_tags : List Text → List Text → Bool
all_tags tags [] = true
all_tags tags (want ∷ wants) = if contains_fold tags want then all_tags tags wants else false

module _ (path_matches : Text → Text → Bool) where
  -- RouteMap.matches
  unfoldable pub route_matches : RouteMap → Text → Text → List Text → Bool
  unfolding method_matches contains_fold
  route_matches r method path tags =
      if not (method_matches r.methods method)
      then false
      else if not (is_empty r.pattern_text) && not (path_matches r.pattern_text path)
      then false
      else all_tags tags r.tags

  unfoldable pub classify : List RouteMap → Text → Text → List Text → RouteType
  unfolding route_matches
  classify [] method path tags = route_tool
  classify (r ∷ rs) method path tags =
      if route_matches r method path tags then r.type else classify rs method path tags

  -- A route is classified by the first map that matches it, whatever follows.
  pub classify_first :
      (before after : List RouteMap) (r : RouteMap) (method path : Text) (tags : List Text)
      → All (λ b. route_matches b method path tags ≡ false) before
      → route_matches r method path tags ≡ true
      → classify (before ++ r ∷ after) method path tags ≡ r.type
  unfolding classify
  classify_first [] after r method path tags none_before here = rw here refl
  classify_first (b ∷ bs) after r method path tags none_before here =
      rw (none_before.0) (classify_first bs after r method path tags none_before.1 here)
