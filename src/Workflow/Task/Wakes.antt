-- ===== src/Workflow/Task/Wakes.antt =====
-- workflow/background.go: whom the end of a background task wakes.
use temporal_agent.Common.{
  ℕ, suc, ◌≤◌, ◌≡◌, refl, ap, ◌∙◌, ◌↔◌, ◌⊎◌, inl, inr, Bool, true, false, not, ◌&&◌, Option, none,
  some, List, [], ◌∷◌, arith, eqb, if◌then◌else◌, Text, text_equality, number_equality,
}
use temporal_agent.Workflow.Agent.Inputs.{BackgroundTaskInput}
use temporal_agent.Workflow.Task.{
  TaskPosted, TaskEffect, run_tool, post_result, tell_file, tell_result, relay_message,
  write_turn_end, answer_channel, task_woken, TaskEnvironment, wake_failed, wake_participant,
  tell_posted_file, posted, task_end, background_task,
}

pub data TaskStep : Type 0 where
  posting : TaskStep
  relaying : TaskStep
  giving_up : TaskStep
  waking : TaskStep
  telling : TaskStep

abbrev pub step_of : TaskEffect → TaskStep
step_of (run_tool input) = telling
step_of (post_result end) = posting
step_of (tell_file turn agent file) = telling
step_of (tell_result session task agent message) = telling
step_of (relay_message workflow message start) = relaying
step_of (write_turn_end session turn agent reason) = giving_up
step_of (answer_channel session channel channel_id signer content) = telling
step_of (task_woken id) = waking

pub record TaskCounts : Type 0 where
  pub posts : ℕ
  pub relays : ℕ
  pub ends : ℕ
  pub wakes : ℕ

abbrev count_step : TaskStep → TaskCounts → TaskCounts
count_step posting c = record c { posts = suc c.posts }
count_step relaying c = record c { relays = suc c.relays }
count_step giving_up c = record c { ends = suc c.ends }
count_step waking c = record c { wakes = suc c.wakes }
count_step telling c = c

-- How many of each a history holds.
abbrev pub counts : List TaskEffect → TaskCounts
counts [] = record { posts = 0; relays = 0; ends = 0; wakes = 0 }
counts (e ∷ es) = count_step (step_of e) (counts es)

abbrev pub times : Bool → ℕ
times true = 1
times false = 0

-- Whether the end written is one to wake the participant with.
abbrev pub is_to_wake : Text ⊎ TaskPosted → Bool
is_to_wake (inl err) = false
is_to_wake (inr out) = not out.gone && out.wake

filed-counts :
    (agent : Text) (out : TaskPosted) (file : Option Text) (h : List TaskEffect)
    → counts (tell_posted_file agent out file h) ≡ counts h
unfolding tell_posted_file
filed-counts agent out none h = refl
filed-counts agent out (some file) h = refl

told-counts :
    (b : Bool) (e : TaskEffect) (h : List TaskEffect)
    → step_of e ≡ telling
    → counts (if b then h else e ∷ h) ≡ counts h
told-counts true e h t = refl
told-counts false e h t = rw t refl

wake_failed-counts :
    (agent : Text) (out : TaskPosted) (failure : Option Text) (h : List TaskEffect)
    → let c = counts (wake_failed agent out failure h) in
      (c.posts ≡ (counts h).posts)
      × (c.relays ≡ (counts h).relays)
      × (c.wakes ≡ (counts h).wakes)
      × (c.ends ≤ suc (counts h).ends)
unfolding wake_failed
wake_failed-counts agent out none h = (refl, refl, refl, omega arith)
wake_failed-counts agent out (some failure) h = (refl, refl, refl, omega arith)

-- One post, and no more relays, ends and wakes than one each.
abbrev pub Wakes : ℕ → List TaskEffect → Type 0
Wakes w h =
    ((counts h).posts ≡ 1)
    × ((counts h).relays ≡ w)
    × ((counts h).wakes ≡ w)
    × ((counts h).ends ≤ w)

wake_participant-Wakes :
    (env : TaskEnvironment) (agent : Text) (out : TaskPosted) (h : List TaskEffect)
    → counts h ≡ record { posts = 1; relays = 0; ends = 0; wakes = 0 }
    → Wakes 1 (task_woken env.task_id ∷ wake_participant env agent out h)
unfolding wake_participant
wake_participant-Wakes env agent out h e =
    let after = wake_failed-counts agent out (env.relay_failure _) _ in
    (
      after.0 ∙ ap (λ c. c.posts) e,
      after.1 ∙ ap (λ c. suc c.relays) e,
      ap suc (after.2 ∙ ap (λ c. c.wakes) e),
      let none : (counts h).ends ≡ 0 = ap (λ c. c.ends) e in omega (arith, after.3, none),
    )

idle-Wakes :
    (h : List TaskEffect)
    → counts h ≡ record { posts = 1; relays = 0; ends = 0; wakes = 0 }
    → Wakes 0 h
idle-Wakes h e =
    let none : (counts h).ends ≡ 0 = ap (λ c. c.ends) e in
    (ap (λ c. c.posts) e, ap (λ c. c.relays) e, ap (λ c. c.wakes) e, omega (arith, none))

Wakes-then :
    (b : Bool) (h k : List TaskEffect)
    → Wakes 1 h
    → Wakes 0 k
    → Wakes (times b) (if b then h else k)
Wakes-then true h k w i = w
Wakes-then false h k w i = i

Wakes-gone :
    (gone wake : Bool) (h k : List TaskEffect)
    → Wakes 0 h
    → Wakes (times wake) k
    → Wakes (times (not gone && wake)) (if gone then h else k)
Wakes-gone true wake h k i w = i
Wakes-gone false wake h k i w = w

posted-Wakes :
    (env : TaskEnvironment) (input : BackgroundTaskInput) (answer : Text ⊎ TaskPosted)
    (h : List TaskEffect)
    → counts h ≡ record { posts = 1; relays = 0; ends = 0; wakes = 0 }
    → Wakes (times (is_to_wake answer)) (posted env input answer h).0
unfolding posted
posted-Wakes env input (inl err) h e = idle-Wakes h e
posted-Wakes env input (inr out) h e =
    let filed = tell_posted_file input.agent_id out out.file h in
    let message = tell_result input.session_id env.task_id input.agent_id out.message_id in
    let told = if eqb out.message_id 0 then filed else message ∷ filed in
    let same : counts told ≡ record { posts = 1; relays = 0; ends = 0; wakes = 0 } =
      told-counts (eqb out.message_id 0) message filed refl
      ∙ (filed-counts input.agent_id out out.file h ∙ e) in
    Wakes-gone out.gone out.wake h _ (idle-Wakes h e) (
      Wakes-then out.wake _ _ (wake_participant-Wakes env input.agent_id out told same)
        (idle-Wakes told same))

posted-error :
    (env : TaskEnvironment) (input : BackgroundTaskInput) (answer : Text ⊎ TaskPosted)
    (h : List TaskEffect) (err : Text)
    → ((posted env input answer h).1 ≡ some err) ↔ (answer ≡ inl err)
unfolding posted
posted-error env input (inl e) h err = (λ k. cc, λ k. cc)
posted-error env input (inr out) h err = (λ k. cc, λ k. cc)

-- A background task's workflow writes the task's end once. It delivers a message to its participant once when the end
-- was written, the task is still there and its end is to wake it, and never otherwise; it says the wake done exactly
-- as often; an end under the turn that would have answered is written once at most, and never without a delivery
-- tried. It fails exactly when the end could not be written, with the same error.
pub background_task-Wakes :
    (env : TaskEnvironment) (input : BackgroundTaskInput) (err : Text)
    → let answer = env.post_answer (post_result (task_end env input) ∷ run_tool input ∷ []) in
      Wakes (times (is_to_wake answer)) (background_task env input).0
      × (((background_task env input).1 ≡ some err) ↔ (answer ≡ inl err))
unfolding background_task
background_task-Wakes env input err =
    let ended = post_result (task_end env input) ∷ run_tool input ∷ [] in
    (
      posted-Wakes env input (env.post_answer ended) ended refl,
      posted-error env input (env.post_answer ended) ended err,
    )
