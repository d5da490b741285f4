-- ===== src/Workflow/Agent/Tools/Context.antt =====
-- tool/metadata.go: a tool's input holds the call's context, and nothing that the model wrote in its place.
use temporal_agent.Common.{
  ◌≡◌, refl, ap, ◌∙◌, ◌⊎◌, inl, inr, Bool, true, false, not, Option, none, some, List, [], ◌∷◌,
  arith, if◌then◌else◌, Bool-cases, select, All, ◌==◌, Text, text_eq_iff, text_equality,
  number_equality, lookup, lookup-put,
}
use temporal_agent.Workflow.Agent.Json.{Json}
use temporal_agent.Workflow.Agent.Inputs.{CallContext}
use temporal_agent.Workflow.Agent.Tools.{
  is_call_context_key, put_all, merge_context, with_call_context,
}

-- A read of the first map, or, where it has none, of the second.
abbrev or_else : Option Text → Option Text → Option Text
or_else none other = other
or_else (some v) other = some v

lookup-put_all :
    (k : Text) (more fields : List (Text × Text))
    → lookup k (put_all more fields) ≡ or_else (lookup k more) (lookup k fields)
unfolding put_all
lookup-put_all k [] fields = refl
lookup-put_all k ((j, v) ∷ more) fields =
    ground (arith, lookup-put j k v (put_all more fields), lookup-put_all k more fields)

abbrev Selects : (Text → Bool) → Text → List (Text × Text) → Type 0
Selects f k fields =
    lookup k (select (λ field. f field.0) fields) ≡ (if f k then lookup k fields else none)

select-step :
    (f : Text → Bool) (k j v : Text) (fields : List (Text × Text))
    → ((j == k) ≡ true) ⊎ ((j == k) ≡ false)
    → Selects f k fields
    → Selects f k ((j, v) ∷ fields)
select-step f k j v fields (inl e) h =
    let same : f j ≡ f k = ap f ((text_eq_iff j k).0 e) in ground (arith, e, same, h)
select-step f k j v fields (inr e) h = ground (arith, e, h)

lookup-select : (f : Text → Bool) (k : Text) (fields : List (Text × Text)) → Selects f k fields
lookup-select f k [] = ground arith
lookup-select f k ((j, v) ∷ fields) =
    select-step f k j v fields (Bool-cases (j == k)) (lookup-select f k fields)

unreserved-none :
    (f : Text → Bool) (k : Text) (fields : List (Text × Text))
    → All (λ field. f field.0 ≡ true) fields
    → f k ≡ false
    → lookup k fields ≡ none
unreserved-none f k [] a own = refl
unreserved-none f k ((j, v) ∷ fields) a own = elim (Bool-cases (j == k)) [
  | inl e ↦
      let same : f j ≡ f k = ap f ((text_eq_iff j k).0 e) in
      let kept = a.0 in ground (arith, same, own, kept)
  | inr e ↦ rw e (unreserved-none f k fields a.1 own)
]

or_else-none : (o : Option Text) → or_else o none ≡ o
or_else-none none = refl
or_else-none (some v) = refl

lookup-merged :
    (f : Text → Bool) (k : Text) (more fields : List (Text × Text))
    → All (λ field. f field.0 ≡ true) more
    → lookup k (put_all more (select (λ field. not (f field.0)) fields))
      ≡ (if f k then lookup k more else lookup k fields)
lookup-merged f k more fields a =
    lookup-put_all k more (select (λ field. not (f field.0)) fields) ∙ elim (Bool-cases (f k)) [
      | inl e ↦ rw e (
          ap (λ o. or_else (lookup k more) o) (lookup-select (λ i. not (f i)) k fields ∙ rw e refl)
          ∙ or_else-none (lookup k more))
      | inr e ↦
          rw e (
            rw (unreserved-none f k more a e) (lookup-select (λ i. not (f i)) k fields ∙ rw e refl))
    ]

-- The input that a tool is given reads back as the model's own fields, but those under a key that a field of the
-- context decodes from, whatever its case; there it holds what the context holds and nothing where that leaves the
-- field out. Where the context's keys are among those, and the object written reads back as the fields it was
-- written from.
pub with_call_context-unforged :
    (json : Json) (cc : CallContext) (input : Text) (fields : List (Text × Text)) (k : Text)
    → All (λ field. is_call_context_key json field.0 ≡ true) (json.context_fields cc)
    → json.fields input ≡ some (some fields)
    → json.fields (json.object (merge_context json cc fields))
      ≡ some (some (merge_context json cc fields))
    → (out : Text) × (read : List (Text × Text)) × (with_call_context json input cc ≡ inr out)
      × (json.fields out ≡ some (some read))
      × (lookup k read ≡ (
          if is_call_context_key json k
          then lookup k (json.context_fields cc)
          else lookup k fields))
unfolding with_call_context
with_call_context-unforged json cc input fields k keys reads back = (
  json.object (merge_context json cc fields),
  merge_context json cc fields,
  rw reads refl,
  back,
  unfold merge_context in
      lookup-merged (is_call_context_key json) k (json.context_fields cc) fields keys,
)
