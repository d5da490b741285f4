-- ===== src/Workflow/Agent/Tools/Truncation.antt =====
-- workflow/agent.go: a result that is too large for the conversation keeps its head and its tail.
use temporal_agent.Common.{
  take, drop, length-take, length-drop, take-drop, drop-drop, back_up-le, IsBoundary,
  back_up-IsBoundary, ℕ, ◌+◌, ◌-◌, ◌*◌, ◌/◌, ◌≤◌, ◌<◌, ◌≡◌, refl, sym, ap, ◌∙◌, subst, ◌⊎◌, inl,
  inr, false, [], ◌∷◌, ◌++◌, arith, ltb, leb, if◌then◌else◌, ltb_iff, Bool-cases, length, Text,
  text, text_equality, number_equality,
}
use temporal_agent.Store.Decimal.{decimal}
use temporal_agent.Workflow.Agent.Results.{rune_start, truncated, cut_head, cut_tail, truncate_to}

rune_start-le : (s : Text) (i : ℕ) → rune_start s i ≤ length s
unfolding rune_start
rune_start-le s i = ground (arith, back_up-le s i)

rune_start-below : (s : Text) (i : ℕ) → i < length s → rune_start s i ≤ i
unfolding rune_start
rune_start-below s i h = ground (arith, back_up-le s i)

rune_start-IsBoundary : (s : Text) (i : ℕ) → i < length s → IsBoundary s (rune_start s i)
unfolding rune_start
rune_start-IsBoundary s i h = ground (arith, back_up-IsBoundary s i)

cut_head-le :
    (content : Text) (most : ℕ) → most < length content → cut_head content most ≤ most * 2 / 3
unfolding cut_head
cut_head-le content most h = rune_start-below content (most * 2 / 3) (omega arith)

cut_head-IsBoundary :
    (content : Text) (most : ℕ) → most < length content → IsBoundary content (cut_head content most)
unfolding cut_head
cut_head-IsBoundary content most h = rune_start-IsBoundary content (most * 2 / 3) (omega arith)

-- `if tail <= head { tail = len(content) }`
settled-bounds :
    (len head tail : ℕ)
    → head < len
    → tail ≤ len
    → (head < (if leb tail head then len else tail)) × ((if leb tail head then len else tail) ≤ len)
settled-bounds len head tail h k = ground arith

cut_tail-bounds :
    (content : Text) (most : ℕ)
    → most < length content
    → (cut_head content most < cut_tail content most) × (cut_tail content most ≤ length content)
unfolding cut_tail
cut_tail-bounds content most h =
    let le : cut_head content most ≤ most * 2 / 3 = cut_head-le content most h in
    settled-bounds (length content) (cut_head content most) _ (omega (arith, le, h))
      (rune_start-le content _)

settled-cases :
    (s : Text) (head tail : ℕ)
    → IsBoundary s tail
    → ((if leb tail head then length s else tail) ≡ length s)
      ⊎ IsBoundary s (if leb tail head then length s else tail)
settled-cases s head tail b = elim (Bool-cases (leb tail head)) [
  | inl e ↦ rw e (inl refl)
  | inr e ↦ rw e (inr b)
]

rune_start-cases : (s : Text) (i : ℕ) → (rune_start s i ≡ length s) ⊎ IsBoundary s (rune_start s i)
rune_start-cases s i = elim (Bool-cases (ltb i (length s))) [
  | inl e ↦ inr (rune_start-IsBoundary s i ((ltb_iff i (length s)).0 e))
  | inr e ↦ inl (past (ground arith))
]
  where
    past : length s ≤ i → rune_start s i ≡ length s
    past le = unfold rune_start in ground (arith, le)

cut_tail-cases :
    (content : Text) (most : ℕ)
    → (cut_tail content most ≡ length content) ⊎ IsBoundary content (cut_tail content most)
unfolding cut_tail
cut_tail-cases content most =
    elim (rune_start-cases content (length content - (most - cut_head content most))) [
      | inl e ↦ inl (ground (arith, e))
      | inr b ↦ settled-cases content (cut_head content most) _ b
    ]

drop-all : (s : Text) (n : ℕ) → n ≡ length s → drop n s ≡ []
drop-all s n e = empty (drop n s) (length-drop n s ∙ omega (arith, e))
  where
    empty : (t : Text) → length t ≡ 0 → t ≡ []
    empty [] f = refl
    empty (b ∷ t) f = absurd (omega (arith, f))

-- The part between two cuts, with its length.
between :
    (s : Text) (head tail : ℕ)
    → head < tail
    → tail ≤ length s
    → (s ≡ take head s ++ (take (tail - head) (drop head s) ++ drop tail s))
      × (length (take (tail - head) (drop head s)) ≡ tail - head)
between s head tail h k =
    let sum : head + (tail - head) ≡ tail = omega (arith, h) in
    let rest : drop (tail - head) (drop head s) ≡ drop tail s =
      drop-drop head (tail - head) s ∙ ap (λ n. drop n s) sum in
    (
      sym (take-drop head (tail - head) s)
          ∙ ap (λ l. take head s ++ (take (tail - head) (drop head s) ++ l)) rest,
      length-take (tail - head) (drop head s) (omega (arith, length-drop head s, h, k)),
    )

-- What a large text becomes, by the two cuts.
truncated-text :
    (content : Text) (most : ℕ)
    → most < length content
    → truncate_to content most ≡ truncated content (cut_head content most) (cut_tail content most)
unfolding truncate_to
truncated-text content most h = rw (leb-false h) refl
  where
    leb-false : most < length content → leb (length content) most ≡ false
    leb-false k = ground (arith, k)

-- A text longer than the bound is a head, a part that is left out and a tail: what is kept is the head and the tail,
-- with the length of the part between, never empty, and the head is of two thirds of the bound at most. Both cuts are
-- on rune boundaries, unless the tail is empty.
pub truncate_to-cut :
    (content : Text) (most : ℕ)
    → most < length content
    → (head : Text) × (omitted : Text) × (tail : Text) × (content ≡ head ++ (omitted ++ tail))
      × (truncate_to content most
          ≡ head
            ++ (text "\n\n[... "
                ++ (decimal (length omitted)
                    ++ (text " bytes omitted, output too large ...]\n\n" ++ tail))))
      × (0 < length omitted)
      × (length head ≤ most * 2 / 3)
      × IsBoundary content (length head)
      × ((tail ≡ []) ⊎ IsBoundary content (length content - length tail))
unfolding truncated
truncate_to-cut content most h =
    let head = cut_head content most in
    let tail = cut_tail content most in
    let bounds = cut_tail-bounds content most h in
    let parts = between content head tail bounds.0 bounds.1 in
    let kept : length (take head content) ≡ head =
      length-take head content (omega (arith, bounds.0, bounds.1)) in
    let rest : length content - length (drop tail content) ≡ tail =
      omega (arith, length-drop tail content, bounds.1) in
    (
      take head content,
      take (tail - head) (drop head content),
      drop tail content,
      parts.0,
      truncated-text content most h
          ∙ ap
              (λ n.
                take head content
                ++ (text "\n\n[... "
                    ++ (decimal n
                        ++ (text " bytes omitted, output too large ...]\n\n"
                            ++ drop tail content))))
              (sym parts.1),
      omega (arith, parts.1, bounds.0),
      omega (arith, kept, cut_head-le content most h),
      subst (λ n. IsBoundary content n) (sym kept) (cut_head-IsBoundary content most h),
      elim (cut_tail-cases content most) [
        | inl e ↦ inl (drop-all content tail e)
        | inr b ↦ inr (subst (λ n. IsBoundary content n) (sym rest) b)
      ],
    )
