-- ===== src/Mixin.antt =====
-- contrib/mixin.go: tools that are registered together under a prefix.
use fastmcp.Prelude.{Text, txt, is_empty, ◌++◌, List, [], ◌∷◌, if◌then◌else◌}
use fastmcp.Server.{Server, ToolEntry, register_tool}

-- a buffered registration: the entry that Server.Tool builds of its handler, under a name
pub record MixinTool (W : Type 0) : Type 0 where
  pub name : Text
  pub entry : Text → ToolEntry W

pub record McpMixin (W : Type 0) : Type 0 where
  pub prefix : Text
  pub tools : List (MixinTool W)

module _ {W : Type 0} where
  abbrev pub new_mcp_mixin : Text → McpMixin W
  new_mcp_mixin prefix = record { prefix = prefix; tools = [] }

  -- MCPMixin.Tool
  abbrev pub add_tool : MixinTool W → McpMixin W → McpMixin W
  add_tool t m = record m { tools = m.tools ++ t ∷ [] }

  unfoldable pub tool_name : McpMixin W → Text → Text
  tool_name m name = if is_empty m.prefix then name else m.prefix ++ (txt "_" ++ name)

  -- the loop of MCPMixin.Register
  unfoldable pub register_each : McpMixin W → List (MixinTool W) → Server W → Server W
  unfolding tool_name register_tool
  register_each m [] s = s
  register_each m (t ∷ ts) s =
      register_each m ts (register_tool (tool_name m t.name) (t.entry (tool_name m t.name)) s)

  unfoldable pub register_mixin : McpMixin W → Server W → Server W
  unfolding register_each
  register_mixin m s = register_each m m.tools s
