-- ===== src/Session/StatusCache.antt =====
-- session/status.go: the statuses of sessions, and the cache of the last states read from Temporal.
--
-- A step of the cache is what a call does between taking the lock and leaving it. A channel is a number,
-- `closed_channels` those that are closed. `V` is what the visibility queries tell, `P` a participant's state.
pub mod Staleness
mod Samples
use temporal_agent.Common.{
  ℕ, suc, ◌+◌, ◌-◌, ◌*◌, ◌/◌, ◌%◌, ◌^◌, ◌⊎◌, inl, inr, Bool, true, false, not, ◌&&◌, Option, none,
  some, List, [], ◌∷◌, ltb, leb, if◌then◌else◌, all, select, ◌==◌, Text, text, text_eq,
  text_equality, number_equality, lookup, put, delete,
}

pub data Status : Type 0 where
  idle : Status
  working : Status
  waiting : Status

unfoldable pub rank : Status → ℕ
rank waiting = 2
rank working = 1
rank idle = 0

unfoldable pub stronger : Status → Status → Status
unfolding rank
stronger s o = if ltb (rank s) (rank o) then o else s

-- Three seconds, in nanoseconds.
abbrev pub statuses_ttl : ℕ
statuses_ttl = 3 * 10 ^ 9

-- `status` is Temporal's; `closed` is none while the workflow runs.
pub record WorkflowState : Type 0 where
  pub status : ℕ
  pub closed : Option ℕ
  pub at : ℕ

pub record QueriedState (P : Type 0) : Type 0 where
  pub state : Option P
  pub ok : Bool
  pub gone : Bool
  pub at : ℕ

pub record StatusCache (V P : Type 0) : Type 0 where
  pub at : ℕ
  pub value : Option V
  pub loading : Option ℕ
  pub gen : ℕ
  pub workflows : List (Text × WorkflowState)
  pub states : List (Text × QueriedState P)
  pub state_loads : List (Text × ℕ)
  pub next_channel : ℕ
  pub closed_channels : List ℕ

-- What a look at the cache leads to: the states, which may be stale, or a wait for the load on a channel.
pub data Look (V : Type 0) : Type 0 where
  found : V → Look V
  wait_for : ℕ → Look V

-- A load that a look started: its generation and its channel.
abbrev pub Load : Type 0
Load = ℕ × ℕ

unfoldable pub expired : ℕ → ℕ → Bool
expired now at = leb statuses_ttl (now - at)

-- What a participant's query ends with: its state, that there is none, or another error.
pub data QueryResult (P : Type 0) : Type 0 where
  queried : P → QueryResult P
  not_found : QueryResult P
  query_failed : QueryResult P

fresh_value : {V : Type 0} → ℕ → ℕ → Option V → Option V
unfolding expired
fresh_value now at none = none
fresh_value now at (some v) = if expired now at then none else some v

look_at : {V : Type 0} → Option V → ℕ → Look V
look_at none done = wait_for done
look_at (some stale) done = found stale

fresh_state : {S : Type 0} → (S → ℕ) → ℕ → Option S → Option S
unfolding expired
fresh_state at_of now none = none
fresh_state at_of now (some s) = if expired now (at_of s) then none else some s

unfoldable pub answer_of : {P : Type 0} → ℕ → QueryResult P → QueriedState P
answer_of at (queried p) = record { state = some p; ok = true; gone = false; at = at }
answer_of at not_found = record { state = none; ok = false; gone = true; at = at }
answer_of at query_failed = record { state = none; ok = false; gone = false; at = at }

module _ {V P : Type 0} where
  unfoldable pub empty_cache : StatusCache V P
  empty_cache = record {
    at = 0;
    value = none;
    loading = none;
    gen = 0;
    workflows = [];
    states = [];
    state_loads = [];
    next_channel = 0;
    closed_channels = [];
  }

  -- The load that runs, or a new one.
  ensure_loading : Option ℕ → StatusCache V P → StatusCache V P × (ℕ × Option Load)
  ensure_loading (some done) c = (c, (done, none))
  ensure_loading none c = (
    record c { loading = some c.next_channel; next_channel = suc c.next_channel },
    (c.next_channel, some (c.gen, c.next_channel)),
  )

  look_fresh : Option V → StatusCache V P → StatusCache V P × (Look V × Option Load)
  unfolding ensure_loading look_at
  look_fresh (some v) c = (c, (found v, none))
  look_fresh none c =
      let (c', (done, load)) = ensure_loading c.loading c in (c', (look_at c.value done, load))

  -- One turn of `get`'s loop, up to its wait.
  unfoldable pub get_look : ℕ → StatusCache V P → StatusCache V P × (Look V × Option Load)
  unfolding look_fresh fresh_value
  get_look now c = look_fresh (fresh_value now c.at c.value) c

  -- The end of a load.
  unfoldable pub refresh : ℕ → Load → V → StatusCache V P → StatusCache V P
  refresh now (gen, done) v c = record c {
    value = if c.gen == gen then some v else c.value;
    at = if c.gen == gen then now else c.at;
    loading = if holds_channel c.loading then none else c.loading;
    closed_channels = done ∷ c.closed_channels;
  }
    where
      holds_channel : Option ℕ → Bool
      holds_channel none = false
      holds_channel (some loading) = loading == done

  -- A workflow's state that is still fresh, and the generation for a reading otherwise.
  unfoldable pub workflow_look : ℕ → Text → StatusCache V P → Option WorkflowState × ℕ
  unfolding fresh_state
  workflow_look now id c =
      (fresh_state (λ (w : WorkflowState). w.at) now (lookup id c.workflows), c.gen)

  -- Keeps a workflow's state as it was read, at `w.at`, and drops the stale ones.
  unfoldable pub workflow_store : ℕ → ℕ → Text → WorkflowState → StatusCache V P → StatusCache V P
  unfolding expired
  workflow_store now gen id w c =
      if c.gen == gen
      then record c {
        workflows =
            put id w (select (λ (p : Text × WorkflowState). not (expired now p.1.at)) c.workflows);
      }
      else c

  -- A participant's state, a wait for the query that runs, or a query to be run: its generation and its channel.
  state_looked :
      Text
      → Option (QueriedState P)
      → Option ℕ
      → StatusCache V P
      → StatusCache V P × (Look (QueriedState P) ⊎ Load)
  state_looked id (some q) load c = (c, inl (found q))
  state_looked id none (some done) c = (c, inl (wait_for done))
  state_looked id none none c = (
    record c {
      state_loads = put id c.next_channel c.state_loads;
      next_channel = suc c.next_channel;
    },
    inr (c.gen, c.next_channel),
  )

  unfoldable pub state_look :
      ℕ → Text → StatusCache V P → StatusCache V P × (Look (QueriedState P) ⊎ Load)
  unfolding state_looked fresh_state
  state_look now id c =
      state_looked id (fresh_state (λ (q : QueriedState P). q.at) now (lookup id c.states))
        (lookup id c.state_loads) c

  -- The end of a participant's query; `cut_short` when its request went away.
  unfoldable pub state_store :
      ℕ → Load → Bool → Text → QueriedState P → StatusCache V P → StatusCache V P
  unfolding expired
  state_store now (gen, done) cut_short id q c = record c {
    states =
        if (c.gen == gen) && not cut_short
        then put id q (select (λ (p : Text × QueriedState P). not (expired now p.1.at)) c.states)
        else c.states;
    state_loads =
        if runs_on (lookup id c.state_loads) then delete id c.state_loads else c.state_loads;
    closed_channels = done ∷ c.closed_channels;
  }
    where
      runs_on : Option ℕ → Bool
      runs_on none = false
      runs_on (some channel) = channel == done

  -- `gen` is a uint64.
  unfoldable pub invalidate : StatusCache V P → StatusCache V P
  invalidate c = record c {
    value = none;
    workflows = [];
    states = [];
    state_loads = [];
    gen = (c.gen + 1) % 2 ^ 64;
    loading = none;
  }
