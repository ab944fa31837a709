-- ===== src/Core/Registry.antt =====
-- internal/agent/core/tool_registry.go: the tools of an agent, by name. Compiling a JSON schema is a
-- parameter; of a tool the registry reads only the definition.
pub mod Names
use oops.Prelude.{
  String, Option, none, some, List, [], ◌∷◌, ◌++◌, map, Bool, true, false, Dict, lookup, insert,
  has, str_eq, if◌then◌else◌, Result, ok, err, ◌>>=◌, ◌>>◌, fail_if,
}

pub record ToolDefinition : Type 0 where
  pub name : String
  pub description : String
  pub parameters : String

pub record RegisteredTool (Tool Schema : Type 0) : Type 0 where
  pub tool : Tool
  pub definition : ToolDefinition
  pub schema : Option Schema

pub record Registry (Tool Schema : Type 0) : Type 0 where
  pub order : List String
  pub tools : Dict (RegisteredTool Tool Schema)

pub data RegistryError : Type 0 where
  nil_tool requires_name : RegistryError
  duplicate_tool bad_schema : String → RegistryError

module _ {Tool Schema : Type 0} (definition : Tool → ToolDefinition)
    (compile : String → Option Schema) where
  abbrev pub empty : Registry Tool Schema
  empty = record { order = []; tools = [] }

  -- `compileSchema`: no parameters have no schema.
  abbrev pub compile_schema : ToolDefinition → Result RegistryError (Option Schema)
  compile_schema d = if str_eq d.parameters "" then ok none else compiled (compile d.parameters)
    where
      compiled : Option Schema → Result RegistryError (Option Schema)
      compiled none = err (bad_schema d.name)
      compiled (some schema) = ok (some schema)

  abbrev pub with_tool : Registry Tool Schema → Tool → Option Schema → Registry Tool Schema
  with_tool r tool schema = record {
    order = r.order ++ (definition tool).name ∷ [];
    tools =
        insert (definition tool).name
          (record { tool = tool; definition = definition tool; schema = schema }) r.tools;
  }

  -- `none` is the nil tool.
  unfoldable pub register :
      Option Tool → Registry Tool Schema → Result RegistryError (Registry Tool Schema)
  register none r = err nil_tool
  register (some tool) r = do
    fail_if (str_eq (definition tool).name "") requires_name
    fail_if (has (definition tool).name r.tools) (duplicate_tool (definition tool).name)
    schema ← compile_schema (definition tool)
    ok (with_tool r tool schema)

  unfoldable pub register_all :
      List (Option Tool) → Registry Tool Schema → Result RegistryError (Registry Tool Schema)
  register_all [] r = ok r
  register_all (tool ∷ rest) r = register tool r >>= register_all rest

  unfoldable pub new_registry : List (Option Tool) → Result RegistryError (Registry Tool Schema)
  new_registry tools = register_all tools empty

  unfoldable pub find_tool : String → Registry Tool Schema → Option Tool
  find_tool name r = elim (lookup name r.tools) [ none ↦ none | some item ↦ some item.tool ]

  -- The zero definition where the key is missing.
  abbrev pub definition_at : Dict (RegisteredTool Tool Schema) → String → ToolDefinition
  definition_at tools name = elim (lookup name tools) [
    | none ↦ record { name = ""; description = ""; parameters = "" }
    | some item ↦ item.definition
  ]

  unfoldable pub definitions : Registry Tool Schema → List ToolDefinition
  definitions r = map (definition_at r.tools) r.order
