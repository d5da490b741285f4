-- ===== src/Session/StatusCache/Staleness.antt =====
-- session/status.go: readings that an invalidation overtakes.
use temporal_agent.Common.{
  ℕ, ◌+◌, ◌%◌, ◌^◌, ◌≤◌, ◌<◌, ◌≡◌, refl, Bool, false, Option, none, some, List, [], ◌∷◌, arith, eqb,
  if◌then◌else◌, Text, text_equality, number_equality, lookup,
}
use temporal_agent.Session.StatusCache.{
  StatusCache, Load, QueriedState, WorkflowState, get_look, refresh, workflow_store, state_look,
  state_store, invalidate, look_fresh, fresh_value, ensure_loading, state_looked, fresh_state,
}

-- A step of the cache but an invalidation.
pub data Step (V P : Type 0) : Type 0 where
  look : (now : ℕ) → Step V P
  load_ended : (now : ℕ) → Load → V → Step V P
  workflow_read : (now gen : ℕ) → Text → WorkflowState → Step V P
  look_state : (now : ℕ) → Text → Step V P
  query_ended : (now : ℕ) → Load → (cut_short : Bool) → Text → QueriedState P → Step V P
  action : Step V P

module _ {V P : Type 0} where
  unfoldable pub after : Step V P → StatusCache V P → StatusCache V P
  after (look now) c = (get_look now c).0
  after (load_ended now load v) c = refresh now load v c
  after (workflow_read now gen id w) c = workflow_store now gen id w c
  after (look_state now id) c = (state_look now id c).0
  after (query_ended now load cut_short id q) c = state_store now load cut_short id q c
  after action c = invalidate c

  unfoldable pub after_all : List (Step V P) → StatusCache V P → StatusCache V P
  unfolding after
  after_all [] c = c
  after_all (s ∷ steps) c = after_all steps (after s c)

  unfoldable pub is_action : Step V P → ℕ
  is_action action = 1
  is_action (look now) = 0
  is_action (load_ended now load v) = 0
  is_action (workflow_read now gen id w) = 0
  is_action (look_state now id) = 0
  is_action (query_ended now load cut_short id q) = 0

  -- How many of the steps are actions that invalidate.
  unfoldable pub actions : List (Step V P) → ℕ
  unfolding is_action
  actions [] = 0
  actions (s ∷ steps) = is_action s + actions steps

  after-gen :
      (s : Step V P) (c : StatusCache V P)
      → (after s c).gen ≡ (if eqb (is_action s) 1 then (c.gen + 1) % 2 ^ 64 else c.gen)
  unfolding after is_action get_look look_fresh ensure_loading refresh workflow_store state_look
      state_looked state_store invalidate
  after-gen (look now) c = looked (fresh_value now c.at c.value) c.loading
    where
      ensured : (o : Option ℕ) → (ensure_loading o c).0.gen ≡ c.gen
      ensured none = refl
      ensured (some done) = refl

      looked : (v : Option V) → Option ℕ → (look_fresh v c).0.gen ≡ c.gen
      looked (some v) o = refl
      looked none o = ensured c.loading
  after-gen (load_ended now (gen, done) v) c = refl
  after-gen (workflow_read now gen id w) c = ground arith
  after-gen (look_state now id) c =
      asked (fresh_state (λ (q : QueriedState P). q.at) now (lookup id c.states))
        (lookup id c.state_loads)
    where
      asked : (q : Option (QueriedState P)) (o : Option ℕ) → (state_looked id q o c).0.gen ≡ c.gen
      asked (some q) o = refl
      asked none (some done) = refl
      asked none none = refl
  after-gen (query_ended now (gen, done) cut_short id q) c = refl
  after-gen action c = refl

  is_action-le : (s : Step V P) → is_action s ≤ 1
  unfolding is_action
  is_action-le action = omega arith
  is_action-le (look now) = omega arith
  is_action-le (load_ended now load v) = omega arith
  is_action-le (workflow_read now gen id w) = omega arith
  is_action-le (look_state now id) = omega arith
  is_action-le (query_ended now load cut_short id q) = omega arith

  after-lt : (s : Step V P) (c : StatusCache V P) → c.gen < 2 ^ 64 → (after s c).gen < 2 ^ 64
  after-lt s c h = ground (arith, after-gen s c)

  after_all-gen :
      (steps : List (Step V P)) (c : StatusCache V P)
      → c.gen < 2 ^ 64
      → (after_all steps c).gen ≡ (c.gen + actions steps) % 2 ^ 64
  unfolding after_all actions
  after_all-gen [] c h = omega arith
  after_all-gen (s ∷ steps) c h =
      omega (arith, stepped, after_all-gen steps (after s c) (after-lt s c h))
    where
      stepped : (after s c).gen ≡ (c.gen + is_action s) % 2 ^ 64
      stepped = ground (arith, after-gen s c, is_action-le s)

  -- A load, a workflow's reading or a participant's query that started before an invalidation keeps nothing of
  -- what it read, whatever steps the cache takes meanwhile, if fewer than 2^64 of them invalidate.
  pub stale-dropped :
      (steps : List (Step V P)) (c : StatusCache V P) (now done : ℕ) (id : Text) (v : V)
      (w : WorkflowState) (q : QueriedState P)
      → c.gen < 2 ^ 64
      → 0 < actions steps
      → actions steps < 2 ^ 64
      → ((refresh now (c.gen, done) v (after_all steps c)).value ≡ (after_all steps c).value)
        × (((workflow_store now c.gen id w (after_all steps c)).workflows
              ≡ (after_all steps c).workflows)
            × ((state_store now (c.gen, done) false id q (after_all steps c)).states
                ≡ (after_all steps c).states))
  unfolding refresh workflow_store state_store
  stale-dropped steps c now done id v w q small some_action few =
      (rw (moved) refl, (rw (moved) refl, rw (moved) refl))
    where
      moved : eqb (after_all steps c).gen c.gen ≡ false
      moved = ground (arith, after_all-gen steps c small)
