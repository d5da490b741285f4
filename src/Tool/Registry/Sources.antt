-- ===== src/Tool/Registry/Sources.antt =====
-- tool/registry.go: the tools of the other sources, when one is synced.
use temporal_agent.Common.{
  ℕ, ◌≡◌, refl, ap, ◌∙◌, inl, inr, Bool, true, false, Option, none, some, List, [], ◌∷◌, arith,
  if◌then◌else◌, on_some, Bool-cases, ◌==◌, contains, Text, text_eq_iff, text_equality,
  number_equality, lookup, delete, lookup-put, lookup-delete,
}
use temporal_agent.Tool.Registry.{
  Tool, Registered, Registry, Syncing, take_tool, sync_held, sync_tool, sync_tools, is_dropped,
  drop_missing, sync_source, sorted_names,
}

module _ (source name : Text) (e : Registered) (other : (e.source == source) ≡ false) where
  drop_missing-other :
      (given names : List Text) (r : Registry)
      → lookup name r.tools ≡ some e
      → lookup name (drop_missing source given names r).0.tools ≡ some e
  unfolding drop_missing
  drop_missing-other given [] r h = h
  drop_missing-other given (n ∷ names) r h =
      drop_missing-other given names _ (deleted (is_dropped source given n (lookup n r.tools)) refl)
    where
      kept : is_dropped source given n (lookup name r.tools) ≡ false
      kept = rw (h, is_dropped, other) refl

      not_it : is_dropped source given n (lookup n r.tools) ≡ true → (n == name) ≡ false
      not_it d = elim (Bool-cases (n == name)) [
        | inl same ↦ ground (
          arith,
          d,
          ap (λ k. is_dropped source given n (lookup k r.tools)) ((text_eq_iff n name).0 same)
              ∙ kept,
        )
        | inr differs ↦ differs
      ]

      deleted :
          (b : Bool)
          → is_dropped source given n (lookup n r.tools) ≡ b
          → lookup name (if b then record { tools = delete n r.tools } else r).tools ≡ some e
      deleted true d = ground (arith, lookup-delete n name r.tools, not_it d)
      deleted false d = h

  module _ (digest : Text → Text) (settings_text : Bool → Bool → Bool → ℕ → Text) where
    sync_tool-other :
        (t : Tool) (s : Syncing)
        → lookup name s.registry.tools ≡ some e
        → lookup name (sync_tool digest settings_text source t s).registry.tools ≡ some e
    unfolding sync_tool sync_held take_tool
    sync_tool-other t s h = elim (Bool-cases (contains s.given t.name)) [
      | inl e ↦ rw (e) h
      | inr e ↦ rw (e) (elim (Bool-cases (t.name == name)) [
        | inl same ↦
            ap (λ o. lookup name (sync_held digest settings_text source t o s).registry.tools)
              (ap (λ k. lookup k s.registry.tools) ((text_eq_iff t.name name).0 same) ∙ h)
            ∙ rw (other) h
        | inr differs ↦ held differs (lookup t.name s.registry.tools)
      ])
    ]
      where
        taken :
            (t.name == name) ≡ false
            → (o : Option Registered)
            → lookup name (take_tool digest settings_text source t o s).registry.tools ≡ some e
        taken differs o =
            lookup-put t.name name (record { tool = t; source = source }) s.registry.tools
            ∙ rw (differs) h

        held :
            (t.name == name) ≡ false
            → (o : Option Registered)
            → lookup name (sync_held digest settings_text source t o s).registry.tools ≡ some e
        held differs none = taken differs none
        held differs (some prev) = elim (Bool-cases (prev.source == source)) [
          | inl mine ↦ rw (mine) (taken differs (some prev))
          | inr theirs ↦ rw (theirs) h
        ]

    sync_tools-other :
        (ts : List Tool) (s : Syncing)
        → lookup name s.registry.tools ≡ some e
        → lookup name (sync_tools digest settings_text source ts s).registry.tools ≡ some e
    unfolding sync_tools
    sync_tools-other [] s h = h
    sync_tools-other (t ∷ ts) s h =
        sync_tools-other ts (sync_tool digest settings_text source t s) (sync_tool-other t s h)

    -- A tool that another source holds, or a built-in one, is still its holder's after a source is synced, whatever
    -- tools the source gives, also under the tool's name; syncing the source "" is refused.
    pub sync_source-other :
        (ts : List Tool) (r : Registry)
        → lookup name r.tools ≡ some e
        → on_some (λ done. lookup name done.0.tools) (sync_source digest settings_text source ts r)
          ≡ (if source == [] then none else some (some e))
    unfolding sync_source
    sync_source-other ts r h = elim (Bool-cases (source == [])) [
      | inl empty ↦ rw (empty) refl
      | inr nonempty ↦ rw (nonempty) (
          ap some (
            drop_missing-other synced.given (sorted_names synced.registry) synced.registry
              (sync_tools-other ts start h)))
    ]
      where
        start : Syncing
        start = record { registry = r; given = []; changed = []; refused = [] }

        synced : Syncing
        synced = sync_tools digest settings_text source ts start
