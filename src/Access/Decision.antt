-- ===== src/Access/Decision.antt =====
-- What `Allowed` decides.
use temporal_agent.Common.{
  List, [], ◌∷◌, ◌++◌, Bool, true, false, not, ◌&&◌, ◌||◌, Option, none, some, Text, ◌≡◌, ◌↔◌, refl,
  arith, Bool-cases, In, inl, inr, all, all-In, all-intro, all-append, eqb, length, ◌∙◌, sym,
}
use temporal_agent.Access.{Rule, User, Tool, matches, matching, holds, every_rule_kept, allowed}

module _ (path_match : Text → Text → Option Bool) where
  -- Whether a rule lets a user use a tool: it does not target it, or the user keeps access through
  -- it.
  abbrev pub lets : Option User → Tool → Rule → Bool
  lets none t r = not (matches path_match r t)
  lets (some u) t r = not (matches path_match r t) || holds r u

  -- The rules' loop as one test, with no order of the rules in it.
  abbrev pub may_use : Option User → Tool → List Rule → Bool
  may_use none t rules = all (lets none t) rules
  may_use (some u) t rules = not u.disabled && (u.admin || all (lets (some u) t) rules)

  every_rule_kept-all :
      (u : User) (t : Tool) (rules : List Rule)
      → every_rule_kept path_match u t rules ≡ all (lets (some u) t) rules
  unfolding every_rule_kept
  every_rule_kept-all u t [] = refl
  every_rule_kept-all u t (r ∷ rules) = ground (arith, every_rule_kept-all u t rules)

  matching-none :
      (t : Tool) (rules : List Rule)
      → eqb (length (matching path_match t rules)) 0 ≡ all (lets none t) rules
  unfolding matching
  matching-none t [] = refl
  matching-none t (r ∷ rules) = ground (arith, matching-none t rules)

  allowed-may_use :
      (u : Option User) (t : Tool) (rules : List Rule)
      → allowed path_match u t rules ≡ may_use u t rules
  unfolding allowed
  allowed-may_use none t rules = matching-none t rules
  allowed-may_use (some u) t rules = ground (arith, every_rule_kept-all u t rules)

  -- What the package promises, rule by rule.
  abbrev pub MayUse : Option User → Tool → List Rule → Type 0
  MayUse none t rules = (r : Rule) → In r rules → matches path_match r t ≡ false
  MayUse (some u) t rules =
      (u.disabled ≡ false)
      × (u.admin ≡ false
          → (r : Rule) → In r rules
          → matches path_match r t ≡ true
          → holds r u ≡ true)

  may_use→MayUse :
      (u : Option User) (t : Tool) (rules : List Rule) → may_use u t rules ≡ true → MayUse u t rules
  may_use→MayUse none t rules h = λ r m. ground (arith, all-In (lets none t) r rules h m)
  may_use→MayUse (some u) t rules h =
      (ground arith, λ a r m. ground (arith, all-In (lets (some u) t) r rules))

  MayUse→may_use :
      (u : Option User) (t : Tool) (rules : List Rule) → MayUse u t rules → may_use u t rules ≡ true
  MayUse→may_use none t rules h = all-intro (lets none t) rules (λ r m. ground (arith, h r m))
  MayUse→may_use (some u) t rules (enabled, kept) = elim (Bool-cases u.admin) [
    | inl a ↦ ground arith
    | inr a ↦ ground (arith, all-intro (lets (some u) t) rules (λ r m. ground (arith, kept a r m)))
  ]

  -- For every matcher of globs, user, tool and list of rules: `Allowed` says yes exactly when, with
  -- no user, no rule targets the tool; with a user, the user is not disabled and, unless an admin,
  -- is a holder of every rule that targets the tool.
  pub allowed_iff :
      (u : Option User) (t : Tool) (rules : List Rule)
      → (allowed path_match u t rules ≡ true) ↔ MayUse u t rules
  allowed_iff u t rules = (
    λ h. may_use→MayUse u t rules (sym (allowed-may_use u t rules) ∙ h),
    λ h. allowed-may_use u t rules ∙ MayUse→may_use u t rules h,
  )

  -- Adding a rule, wherever it stands among the others, never opens anything: what is allowed with
  -- it was allowed without it.
  pub allowed-insert_rule :
      (u : Option User) (t : Tool) (xs : List Rule) (r : Rule) (ys : List Rule)
      → allowed path_match u t (xs ++ r ∷ ys) ≡ true
      → allowed path_match u t (xs ++ ys) ≡ true
  allowed-insert_rule none t xs r ys h =
      allowed-may_use none t (xs ++ ys)
      ∙ ground (
        arith,
        allowed-may_use none t (xs ++ r ∷ ys),
        all-append (lets none t) xs ys,
        all-append (lets none t) xs (r ∷ ys),
      )
  allowed-insert_rule (some u) t xs r ys h =
      allowed-may_use (some u) t (xs ++ ys)
      ∙ ground (
        arith,
        allowed-may_use (some u) t (xs ++ r ∷ ys),
        all-append (lets (some u) t) xs ys,
        all-append (lets (some u) t) xs (r ∷ ys),
      )
