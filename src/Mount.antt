-- ===== src/Mount.antt =====
-- mount/mount.go and mount/delegate.go: the components of a child server on a parent, under a prefix. This
-- file has the configuration and the names; the children have the calls of the child and the composition.
pub mod Names
pub mod Delegate
pub mod Compose
use fastmcp.Prelude.{
  Text, txt, text_eq, is_empty, Bool, true, false, List, [], ◌∷◌, ◌++◌, Option, none, some, Result,
  done, failed, if◌then◌else◌,
}
use fastmcp.Prelude.Dict.{Dict, get}
use fastmcp.Server.Template.{Piece, lit, var, compile_uri_template}
use fastmcp.Server.Registry.{mem_text}
use fastmcp.Uri.Placeholders.{cut_at}

pub data ResourcePrefixStyle : Type 0 where
  prefix_path : ResourcePrefixStyle
  prefix_protocol : ResourcePrefixStyle

pub data CollisionPolicy : Type 0 where
  collision_error : CollisionPolicy
  collision_skip : CollisionPolicy
  collision_overwrite : CollisionPolicy

pub record MountConfig : Type 0 where
  pub separator : Text
  pub resource_style : ResourcePrefixStyle
  pub include_tools : Bool
  pub include_resources : Bool
  pub include_prompts : Bool
  pub on_collision : CollisionPolicy

abbrev pub default_config : MountConfig
default_config = record {
  separator = txt "_";
  resource_style = prefix_path;
  include_tools = true;
  include_resources = true;
  include_prompts = true;
  on_collision = collision_error;
}

-- the method `separator`
abbrev pub effective_separator : MountConfig → Text
effective_separator cfg = if is_empty cfg.separator then txt "_" else cfg.separator

unfoldable pub prefix_name : Text → Text → Text → Text
prefix_name prefix name sep = prefix ++ (sep ++ name)

abbrev pub styled : Text → ResourcePrefixStyle → Text → Text → Text
styled prefix prefix_path scheme rest = scheme ++ (txt "://" ++ (prefix ++ b'/' ∷ rest))
styled prefix prefix_protocol scheme rest = prefix ++ b'+' ∷ (scheme ++ (txt "://" ++ rest))

unfoldable pub prefix_uri : Text → Text → ResourcePrefixStyle → Text
unfolding cut_at
prefix_uri uri prefix style = elim (cut_at (txt "://") uri) [
  | none ↦ prefix ++ b'/' ∷ uri
  | some (scheme, rest) ↦ styled prefix style scheme rest
]

-- what a placeholder becomes: its value, or itself
abbrev pub value_or_self : Text → Option Text → Text
value_or_self name none = b'{' ∷ (name ++ b'}' ∷ [])
value_or_self name (some v) = v

-- ReplaceAllStringFunc of the expression that compileURITemplate of resource.go splits at, too
unfoldable pub expand_pieces : List Piece → Dict Text → Text
expand_pieces [] params = []
expand_pieces (lit t ∷ ps) params = t ++ expand_pieces ps params
expand_pieces (var name ∷ ps) params =
    value_or_self name (get name params) ++ expand_pieces ps params

unfoldable pub expand_template : Text → Dict Text → Text
unfolding expand_pieces compile_uri_template
expand_template tmpl params = expand_pieces (compile_uri_template tmpl) params

-- %q of a name is written for a name with nothing to escape
abbrev pub clash_text : Text → Text → Text
clash_text name kind =
    txt "mount: " ++ (kind ++ (txt " \"" ++ (name ++ txt "\" already registered on parent")))

abbrev pub resolve_clash : Text → Text → CollisionPolicy → Result Bool
resolve_clash name kind collision_skip = done false
resolve_clash name kind collision_overwrite = done true
resolve_clash name kind collision_error = failed (clash_text name kind)

-- whether to register, and the names taken then
unfoldable pub resolve : List Text → Text → Text → CollisionPolicy → Result Bool × List Text
unfolding mem_text
resolve set name kind policy =
    if mem_text name set then (resolve_clash name kind policy, set) else (done true, name ∷ set)
