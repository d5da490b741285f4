-- ===== src/Conversation/Convert/Alternation.antt =====
-- conversation/convert.go: the roles of what a model reads alternate, as the API expects: no text of a user follows
-- another.
use temporal_agent.Common.{◌≡◌, ◌⊎◌, none, List, [], ◌∷◌, text_equality, number_equality}
use temporal_agent.Conversation.Convert.{plain_user_text}
use temporal_agent.Conversation.Texts.{View, ChatMessage}

module _ (v : View) where
  -- One of the two is no text of a user alone.
  abbrev pub Apart : ChatMessage → ChatMessage → Type 0
  Apart a b = (plain_user_text v a ≡ none) ⊎ (plain_user_text v b ≡ none)

  abbrev Meets : ChatMessage → List ChatMessage → Type 0
  Meets a [] = Unit {0}
  Meets a (b ∷ rest) = Apart a b

  -- Each message and the one after it are apart.
  abbrev pub Alternates : List ChatMessage → Type 0
  Alternates [] = Unit {0}
  Alternates (a ∷ rest) = Meets a rest × Alternates rest

  abbrev Joins : List ChatMessage → List ChatMessage → Type 0
  Joins [] done = Unit {0}
  Joins (a ∷ rest) done = Meets a done
