-- ===== src/Access/Samples.antt =====
-- Rules, users and tools of the package's tests, and the theorems at them.
use temporal_agent.Common.{
  [], ◌∷◌, Bool, true, false, Option, none, some, Text, text, text_eq, ◌≡◌, ◌↔◌, refl, In,
}
use temporal_agent.Access.{
  Rule, User, Tool, Snapshot, source_mcp, glob_matches, matches, holds, agent, allowed, removes,
  snapshot_allowed, glob_matches,
}
use temporal_agent.Access.Decision.{MayUse, allowed_iff, allowed-insert_rule}
use temporal_agent.Access.Removal.{removes_iff, snapshot_allowed-unknown}

-- Globs with no wildcard, "[" apart, which is malformed.
abbrev literal_match : Text → Text → Option Bool
literal_match glob name = if_bad (text_eq glob (text "["))
  where
    if_bad : Bool → Option Bool
    if_bad true = none
    if_bad false = some (text_eq glob name)

abbrev server_rule : Rule
server_rule = record {
  id = 1;
  kind = text "mcp_server";
  target = text "crm";
  groups = text "sales" ∷ [];
  users = text "carol" ∷ [];
}

abbrev name_rule : Rule
name_rule = record {
  id = 2;
  kind = text "pattern";
  target = text "agent_x";
  groups = [];
  users = text "alice" ∷ [];
}

abbrev bob : User
bob = record { id = text "bob"; admin = false; disabled = false; groups = text "sales" ∷ [] }

abbrev search : Tool
search = record {
  name = text "crm_search";
  source = record { kind = source_mcp; server = text "crm" };
}

abbrev known : Snapshot
known = record { rules = server_rule ∷ name_rule ∷ []; users = (text "bob", bob) ∷ [] }

bob_in_sales : allowed literal_match (some bob) search (server_rule ∷ name_rule ∷ []) ≡ true
unfolding allowed matches glob_matches holds text_eq
bob_in_sales = refl

bob_not_x : allowed literal_match (some bob) (agent (text "x")) (name_rule ∷ []) ≡ false
unfolding allowed matches glob_matches holds text_eq agent
bob_not_x = refl

allowed_iff_example :
    (allowed literal_match (some bob) search (server_rule ∷ []) ≡ true)
    ↔ MayUse literal_match (some bob) search (server_rule ∷ [])
allowed_iff_example = allowed_iff literal_match (some bob) search (server_rule ∷ [])

allowed-insert_rule_example : allowed literal_match (some bob) search (server_rule ∷ []) ≡ true
allowed-insert_rule_example =
    allowed-insert_rule literal_match (some bob) search (server_rule ∷ []) name_rule [] bob_in_sales

removes_iff_example :
    In bob (removes literal_match name_rule [] (bob ∷ []) (agent (text "x") ∷ [])) ↔ (
      In bob (bob ∷ [])
      × ((a : Tool) × In a (agent (text "x") ∷ []) × (allowed literal_match (some bob) a [] ≡ true))
      × ((a : Tool)
          → In a (agent (text "x") ∷ [])
          → allowed literal_match (some bob) a (name_rule ∷ []) ≡ false))
removes_iff_example = removes_iff literal_match name_rule [] (bob ∷ []) (agent (text "x") ∷ []) bob

snapshot_allowed-unknown_example :
    (snapshot_allowed literal_match known (text "dave") search ≡ true) ↔ (
      (r : Rule)
      → In r known.rules
      → matches literal_match r search ≡ true
      → In (text "dave") r.users)
unfolding text_eq
snapshot_allowed-unknown_example =
    snapshot_allowed-unknown literal_match known (text "dave") search (λ e. cc) refl
