-- ===== src/Tool/Registry.antt =====
-- tool/registry.go: the tools of a process, built in or given by a server. A call holds the lock, so it is one
-- step on the map of the tools. The source "" is the built-in tools'.
--
-- path.Match, SHA-256 in hexadecimal and fmt.Sprint of the settings are parameters; a tool's function is the
-- name that WorkflowName reads, "" for none.
pub mod Sources
mod Samples
use temporal_agent.Common.{
  insert, sort, ℕ, ◌+◌, ◌-◌, ◌/◌, ap, Bool, true, false, not, ◌&&◌, Option, none, some, List, [],
  ◌∷◌, ◌++◌, map, ltb, leb, eqb, if◌then◌else◌, on_some, any, all, select, ◌==◌, contains, Text,
  text, text_eq, text_equality, number_equality, lookup, put, delete,
}

pub data ToolKind : Type 0 where
  activity_kind : ToolKind
  workflow_kind : ToolKind
  mcp_kind : ToolKind

kind_text : ToolKind → Text
kind_text activity_kind = text "activity"
kind_text workflow_kind = text "workflow"
kind_text mcp_kind = text "mcp"

pub record Tool : Type 0 where
  pub name : Text
  pub description : Text
  pub input_schema : Text
  pub kind : ToolKind
  pub workflow_func : Option Text
  pub task_queue : Text
  pub sensitive : Bool
  pub private_input : Bool
  pub needs_call_context : Bool
  pub timeout : ℕ
  pub mcp_server : Text

pub record Registered : Type 0 where
  pub tool : Tool
  pub source : Text

pub record Registry : Type 0 where
  pub tools : List (Text × Registered)

pub new_registry : Registry
new_registry = record { tools = [] }

-- What follows the last point of the function's full name, all of it when there is none.
workflow_name : Tool → Text
workflow_name t = short t.workflow_func
  where
    after_last : Text → Text → Text
    after_last [] kept = kept
    after_last (c ∷ cs) kept = if eqb c 46 then after_last cs cs else after_last cs kept

    short : Option Text → Text
    short none = []
    short (some full) = after_last full full

-- The order of strings: byte by byte.
unfoldable pub text_leb : Text → Text → Bool
text_leb [] t = true
text_leb (a ∷ s) [] = false
text_leb (a ∷ s) (b ∷ t) = if eqb a b then text_leb s t else ltb a b

abbrev pub key_of : Text × Registered → Text
key_of (name, e) = name

unfoldable pub sorted_names : Registry → List Text
unfolding text_leb sort insert
sorted_names r = sort text_leb (map key_of r.tools)

unfoldable pub register : Tool → Registry → Registry
register t r = record { tools = put t.name (record { tool = t; source = [] }) r.tools }

unfoldable pub get : Text → Registry → Option Tool
get name r = on_some (λ e. e.tool) (lookup name r.tools)

found_in : Option Registered → List Tool → List Tool
found_in none rest = rest
found_in (some e) rest = e.tool ∷ rest

tools_named : Registry → List Text → List Tool
unfolding found_in
tools_named r [] = []
tools_named r (name ∷ names) = found_in (lookup name r.tools) (tools_named r names)

unfoldable pub all_tools : Registry → List Tool
unfolding sorted_names tools_named
all_tools r = tools_named r (sorted_names r)

pub record ToolDefinition : Type 0 where
  pub name : Text
  pub description : Text
  pub input_schema : Text

abbrev empty_schema : Text
empty_schema = text "{\"type\":\"object\",\"properties\":{}}"

unfoldable pub list_tools : Registry → List ToolDefinition
unfolding all_tools
list_tools r = map define (all_tools r)
  where
    define : Tool → ToolDefinition
    define t = record {
      name = t.name;
      description = t.description;
      input_schema = if t.input_schema == [] then empty_schema else t.input_schema;
    }

is_workflow : Tool → Bool
is_workflow t = of_kind t.kind t.workflow_func
  where
    of_kind : ToolKind → Option Text → Bool
    of_kind workflow_kind (some f) = true
    of_kind workflow_kind none = false
    of_kind activity_kind f = false
    of_kind mcp_kind f = false

unfoldable pub workflow_tools : Registry → List Tool
unfolding is_workflow
workflow_tools r = select is_workflow (map (λ (p : Text × Registered). p.1.tool) r.tools)

-- The tool under the name, if the source holds it.
unfoldable pub held_by : Text → Text → Registry → Option Tool
held_by name source r = if_held (lookup name r.tools)
  where
    if_held : Option Registered → Option Tool
    if_held none = none
    if_held (some e) = if e.source == source then some e.tool else none

-- `none` is the error that the tool is unknown. `call` runs a tool's function.
unfoldable pub execute : {A : Type 0} → (Tool → Text → A) → Text → Text → Registry → Option A
unfolding get
execute call name input r = on_some (λ t. call t input) (get name r)

module _ (path_match : Text → Text → Option Bool) where
  unfoldable pub match_any : List Text → Text → Bool
  match_any globs name = any (λ g. is_match (path_match g name)) globs
    where
      is_match : Option Bool → Bool
      is_match none = false
      is_match (some b) = b

  unfoldable pub retain_names : List Text → List Text → Registry → Registry × List Text
  unfolding match_any
  retain_names globs [] r = (r, [])
  retain_names globs (name ∷ names) r =
      let removes = not (match_any globs name) in
      let (left, removed) =
        retain_names globs names (if removes then record { tools = delete name r.tools } else r) in
      (left, if removes then name ∷ removed else removed)

  unfoldable pub retain : List Text → Registry → Registry × List Text
  unfolding retain_names sorted_names
  retain globs r = retain_names globs (sorted_names r) r

pub record Refusal : Type 0 where
  pub name : Text
  pub held_by : Text

unfoldable pub refusal_text : Refusal → Text
refusal_text r =
    if r.held_by == []
    then r.name ++ text " (a built-in tool)"
    else r.name ++ (text " (held by MCP server " ++ (r.held_by ++ text ")"))

pub record SourceChange : Type 0 where
  pub changed : List Tool
  pub removed : List Text
  pub refused : List Refusal

-- What SyncSource holds as it goes through the tools it is given.
pub record Syncing : Type 0 where
  pub registry : Registry
  pub given : List Text
  pub changed : List Tool
  pub refused : List Refusal

module _ (digest : Text → Text) (settings_text : Bool → Bool → Bool → ℕ → Text) where
  schema_hash : Tool → Text
  unfolding kind_text workflow_name
  schema_hash t = digest (
      t.description
      ++ (0
          ∷ (t.input_schema
              ++ (0
                  ∷ (kind_text t.kind
                      ++ (0
                          ∷ (workflow_name t
                              ++ (0
                                  ∷ (settings_text t.sensitive t.private_input t.needs_call_context
                                        t.timeout
                                      ++ (0 ∷ []))))))))))

  -- The tool was not there, or its contract was another.
  unfoldable pub is_changed : Option Registered → Tool → Bool
  unfolding schema_hash
  is_changed none t = true
  is_changed (some prev) t = not (schema_hash prev.tool == schema_hash t)

  unfoldable pub take_tool : Text → Tool → Option Registered → Syncing → Syncing
  unfolding is_changed
  take_tool source t prev s = record s {
    registry = record {
      tools = put t.name (record { tool = t; source = source }) s.registry.tools;
    };
    given = t.name ∷ s.given;
    changed = if is_changed prev t then s.changed ++ (t ∷ []) else s.changed;
  }

  unfoldable pub sync_held : Text → Tool → Option Registered → Syncing → Syncing
  unfolding take_tool
  sync_held source t none s = take_tool source t none s
  sync_held source t (some prev) s =
      if not (prev.source == source)
      then record s {
        refused = s.refused ++ (record { name = t.name; held_by = prev.source } ∷ []);
      }
      else take_tool source t (some prev) s

  unfoldable pub sync_tool : Text → Tool → Syncing → Syncing
  unfolding sync_held
  sync_tool source t s =
      if contains s.given t.name then s else sync_held source t (lookup t.name s.registry.tools) s

  unfoldable pub sync_tools : Text → List Tool → Syncing → Syncing
  unfolding sync_tool
  sync_tools source [] s = s
  sync_tools source (t ∷ ts) s = sync_tools source ts (sync_tool source t s)

unfoldable pub is_dropped : Text → List Text → Text → Option Registered → Bool
is_dropped source given name none = false
is_dropped source given name (some e) = (e.source == source) && not (contains given name)

unfoldable pub drop_missing : Text → List Text → List Text → Registry → Registry × List Text
unfolding is_dropped
drop_missing source given [] r = (r, [])
drop_missing source given (name ∷ names) r =
    let drops = is_dropped source given name (lookup name r.tools) in
    let (left, removed) =
      drop_missing source given names
        (if drops then record { tools = delete name r.tools } else r) in
    (left, if drops then name ∷ removed else removed)

module _ (digest : Text → Text) (settings_text : Bool → Bool → Bool → ℕ → Text) where
  -- `none` is the panic on the source "".
  unfoldable pub sync_source : Text → List Tool → Registry → Option (Registry × SourceChange)
  unfolding sync_tools drop_missing sorted_names
  sync_source source tools r =
      let s =
        sync_tools digest settings_text source tools
          (record { registry = r; given = []; changed = []; refused = [] }) in
      let (left, removed) = drop_missing source s.given (sorted_names s.registry) s.registry in
      if source == []
      then none
      else some (
        left,
        record {
          changed = sort (λ (a b : Tool). text_leb a.name b.name) s.changed;
          removed = removed;
          refused = sort (λ (a b : Refusal). text_leb a.name b.name) s.refused;
        },
      )
