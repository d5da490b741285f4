-- ===== src/Session/StatusCache/Samples.antt =====
-- A load that an action overtakes.
use temporal_agent.Common.{
  ℕ, ◌≡◌, Bool, true, false, none, List, [], ◌∷◌, arith, text, text_equality, number_equality,
}
use temporal_agent.Session.StatusCache.{
  StatusCache, empty_cache, refresh, workflow_store, state_store, WorkflowState, answer_of, queried,
}
use temporal_agent.Session.StatusCache.Staleness.{
  Step, is_action, look, action, actions, after_all, stale-dropped,
}

abbrev cache : StatusCache Bool ℕ
cache = empty_cache

abbrev steps : List (Step Bool ℕ)
steps = look 5 ∷ action ∷ look 6 ∷ []

abbrev read : WorkflowState
read = record { status = 1; closed = none; at = 5 }

stale-dropped_example :
    ((refresh 7 (0, 0) true (after_all steps cache)).value ≡ (after_all steps cache).value)
    × (((workflow_store 7 0 (text "fork-s") read (after_all steps cache)).workflows
          ≡ (after_all steps cache).workflows)
        × ((state_store 7
              (0, 0)
              false
              (text "fork-s")
              (answer_of 5 (queried 3))
              (after_all steps cache)).states
            ≡ (after_all steps cache).states))
unfolding actions empty_cache is_action
stale-dropped_example =
    stale-dropped steps cache 7 0 (text "fork-s") true read (answer_of 5 (queried 3)) (omega arith)
      (omega arith) (omega arith)
