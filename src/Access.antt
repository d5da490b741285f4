-- ===== src/Access.antt =====
-- access/access.go: who may use which tool. A rule closes the tools it targets to everyone but
-- its holders. `path_match` is Go's `path.Match`, where `none` stands for ErrBadPattern.
pub mod Decision
pub mod Removal
mod Samples
use temporal_agent.Common.{
  ℕ, List, [], ◌∷◌, ◌++◌, Bool, true, false, not, ◌&&◌, ◌||◌, Option, none, some, Text, text, any,
  all, select, contains, ◌==◌, text_eq, text_equality, if◌then◌else◌, lookup, length, ltb, eqb,
}

abbrev pub kind_mcp_server : Text
kind_mcp_server = text "mcp_server"

abbrev pub kind_pattern : Text
kind_pattern = text "pattern"

pub valid_kind : Text → Bool
valid_kind kind = kind == kind_mcp_server || kind == kind_pattern

pub record Rule : Type 0 where
  pub id : ℕ
  pub kind : Text
  pub target : Text
  pub groups : List Text
  pub users : List Text

pub record User : Type 0 where
  pub id : Text
  pub admin : Bool
  pub disabled : Bool
  pub groups : List Text

pub data SourceKind : Type 0 where
  source_built_in source_agent source_mcp : SourceKind

pub record Source : Type 0 where
  pub kind : SourceKind
  pub server : Text

pub record Tool : Type 0 where
  pub name : Text
  pub source : Source

is_mcp : SourceKind → Bool
is_mcp source_mcp = true
is_mcp _ = false

-- (s.server, s.kind == sourceMCP)
pub mcp_server : Source → Text × Bool
unfolding is_mcp
mcp_server s = (s.server, is_mcp s.kind)

abbrev pub agent_tool_prefix : Text
agent_tool_prefix = text "agent_"

pub built_in : Text → Tool
built_in name = record { name = name; source = record { kind = source_built_in; server = [] } }

pub agent : Text → Tool
agent agent_id = record {
  name = agent_tool_prefix ++ agent_id;
  source = record { kind = source_agent; server = [] };
}

pub from_mcp : Text → Text → Tool
from_mcp server name = record {
  name = name;
  source = record { kind = source_mcp; server = server };
}

-- Named, or a member of one of its groups.
pub holds : Rule → User → Bool
holds r u = if contains r.users u.id then true else any (λ g. contains r.groups g) u.groups

pub has_holder : Rule → Bool
has_holder r = ltb 0 (length r.groups) || ltb 0 (length r.users)

pub record Snapshot : Type 0 where
  pub rules : List Rule
  pub users : List (Text × User)

-- A user the snapshot does not know has no group and no role.
pub snapshot_user : Snapshot → Text → Option User
snapshot_user s user_id = if user_id == [] then none else elim (lookup user_id s.users) [
  | some u ↦ some u
  | none ↦ some (record { id = user_id; admin = false; disabled = false; groups = [] })
]

module _ (path_match : Text → Text → Option Bool) where
  valid_glob : Text → Bool
  valid_glob glob = elim (path_match glob []) [ none ↦ false | some _ ↦ true ]

  pub valid_target : Text → Text → Bool
  unfolding valid_glob
  valid_target kind target =
      if target == [] then false else if kind == kind_pattern then valid_glob target else true

  -- `ok, _ := path.Match(…)`: false on an error.
  pub glob_matches : Text → Text → Bool
  glob_matches glob name = elim (path_match glob name) [ none ↦ false | some b ↦ b ]

  pub matches : Rule → Tool → Bool
  unfolding mcp_server
  matches r t =
      if r.kind == kind_mcp_server
      then (let (server, ok) = mcp_server t.source in ok && server == r.target)
      else if r.kind == kind_pattern
      then glob_matches r.target t.name
      else false

  pub matching : Tool → List Rule → List Rule
  matching t rules = select (λ r. matches r t) rules

  pub targets : Rule → List Tool → List Tool
  targets r tools = select (λ t. matches r t) tools

  -- The loop of `Allowed` over the rules.
  pub every_rule_kept : User → Tool → List Rule → Bool
  every_rule_kept u t [] = true
  every_rule_kept u t (r ∷ rules) =
      if matches r t && not (holds r u) then false else every_rule_kept u t rules

  pub allowed : Option User → Tool → List Rule → Bool
  unfolding every_rule_kept
  allowed none t rules = eqb (length (matching t rules)) 0
  allowed (some u) t rules =
      if u.disabled then false else if u.admin then true else every_rule_kept u t rules

  pub snapshot_allowed : Snapshot → Text → Tool → Bool
  snapshot_allowed s user_id t = allowed (snapshot_user s user_id) t s.rules

  -- Whether `u` may use one of the agents under the rules: the inner loop of `Removes`.
  pub uses_one : User → List Rule → List Tool → Bool
  uses_one u rules agents = any (λ a. allowed (some u) a rules) agents

  pub removes : Rule → List Rule → List User → List Tool → List User
  unfolding uses_one
  removes rule others users agents =
      select (λ u. uses_one u others agents && not (uses_one u (others ++ rule ∷ []) agents)) users
