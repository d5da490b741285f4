-- ===== src/Access/Removal.antt =====
-- access: what a rule closes: the users it leaves without an agent, and those the snapshot does not know.
use temporal_agent.Common.{
  List, [], ◌∷◌, ◌++◌, Bool, true, false, not, ◌&&◌, Option, none, some, Text, ◌≡◌, ◌≢◌, ◌↔◌, refl,
  arith, Bool-cases, In, In-select, inl, inr, any, any→In, In→any, text_eq_iff, lookup,
  contains_iff, ◌==◌, text_equality,
}
use temporal_agent.Access.{
  Rule, User, Tool, Snapshot, matches, holds, allowed, uses_one, removes, snapshot_user,
  snapshot_allowed,
}
use temporal_agent.Access.Decision.{allowed_iff}

module _ (path_match : Text → Text → Option Bool) where
  any-false :
      {A : Type 0} (f : A → Bool) (xs : List A)
      → (any f xs ≡ false) ↔ ((a : A) → In a xs → f a ≡ false)
  any-false f xs = (
    λ h a m. elim (Bool-cases (f a)) [ inl t ↦ ground (arith, In→any f a xs m t) | inr n ↦ n ],
    λ h. elim (Bool-cases (any f xs)) [
      | inl t ↦ let (a, m, y) = any→In f xs t in ground (arith, h a m)
      | inr n ↦ n
    ],
  )

  uses_one_iff :
      (u : User) (rules : List Rule) (agents : List Tool)
      → (uses_one path_match u rules agents ≡ true)
        ↔ ((a : Tool) × In a agents × (allowed path_match (some u) a rules ≡ true))
  unfolding uses_one
  uses_one_iff u rules agents = (
    any→In (λ a. allowed path_match (some u) a rules) agents,
    λ (a, m, h). In→any (λ a. allowed path_match (some u) a rules) a agents m h,
  )

  uses_one_none :
      (u : User) (rules : List Rule) (agents : List Tool)
      → (uses_one path_match u rules agents ≡ false)
        ↔ ((a : Tool) → In a agents → allowed path_match (some u) a rules ≡ false)
  unfolding uses_one
  uses_one_none u rules agents = any-false (λ a. allowed path_match (some u) a rules) agents

  -- A rule takes every agent from a user exactly when the user, one of those given, may use one of
  -- the agents under the other rules and none of them once the rule is added.
  pub removes_iff :
      (rule : Rule) (others : List Rule) (users : List User) (agents : List Tool) (u : User)
      → In u (removes path_match rule others users agents) ↔ (
          In u users
          × ((a : Tool) × In a agents × (allowed path_match (some u) a others ≡ true))
          × ((a : Tool)
              → In a agents
              → allowed path_match (some u) a (others ++ rule ∷ []) ≡ false))
  unfolding removes
  removes_iff rule others users agents u =
      let before = uses_one_iff u others agents in
      let after = uses_one_none u (others ++ rule ∷ []) agents in
      let kept =
        In-select
          (λ v.
            uses_one path_match v others agents
            && not (uses_one path_match v (others ++ rule ∷ []) agents))
          u users in
      (
        λ m. let (i, t) = kept.0 m in (i, before.0 (ground arith), after.0 (ground arith)),
        λ (i, b, a). kept.1 (i, ground (arith, before.1 b, after.1 a)),
      )

abbrev unknown_user : Text → User
unknown_user user_id = record { id = user_id; admin = false; disabled = false; groups = [] }

snapshot_user-unknown :
    (s : Snapshot) (user_id : Text)
    → user_id ≢ []
    → lookup user_id s.users ≡ none
    → snapshot_user s user_id ≡ some (unknown_user user_id)
unfolding snapshot_user
snapshot_user-unknown s user_id filled missing = elim (Bool-cases (user_id == [])) [
  | inl e ↦ absurd (filled ((text_eq_iff user_id []).0 e))
  | inr e ↦ rw (e, missing)
]

holds-unknown :
    (r : Rule) (user_id : Text) → (holds r (unknown_user user_id) ≡ true) ↔ In user_id r.users
unfolding holds
holds-unknown r user_id = ground (arith, contains_iff r.users user_id)

module _ (path_match : Text → Text → Option Bool) where
  -- A user the snapshot does not know yet may use a tool exactly when every rule that targets it
  -- names that user: no group of theirs, no role opens it.
  pub snapshot_allowed-unknown :
      (s : Snapshot) (user_id : Text) (t : Tool)
      → user_id ≢ []
      → lookup user_id s.users ≡ none
      → (snapshot_allowed path_match s user_id t ≡ true)
        ↔ ((r : Rule) → In r s.rules → matches path_match r t ≡ true → In user_id r.users)
  unfolding snapshot_allowed
  snapshot_allowed-unknown s user_id t filled missing =
      let spec = allowed_iff path_match (some (unknown_user user_id)) t s.rules in
      rw (snapshot_user-unknown s user_id filled missing) (
        λ h r m e. (holds-unknown r user_id).0 ((spec.0 h).1 refl r m e),
        λ h. spec.1 (refl, λ _ r m e. (holds-unknown r user_id).1 (h r m e)),
      )
