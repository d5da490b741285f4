-- ===== src/Auth/Throttle/Window.antt =====
-- auth/throttle.go: the count of a key's failures within its window.
use temporal_agent.Common.{
  ℕ, ◌+◌, ◌-◌, ◌≤◌, ◌≡◌, refl, ap, ◌∙◌, inl, inr, Bool, true, false, Option, none, some, List, [],
  ◌∷◌, arith, leb, if◌then◌else◌, Bool-cases, Option-cases, length, ◌==◌, Text, text_eq_iff,
  text_equality, number_equality, lookup, delete, lookup-put, lookup-delete,
}
use temporal_agent.Auth.Throttle.{
  FailureCount, Throttle, window_closed, drop_closed, current, count_reached, blocked, sweep_keys,
  counted, sweep_full, fail, max_tracked_keys, new_throttle,
}

-- What a window of that length holds against a key at a time: the failures of the open window.
unfoldable pub open_window : ℕ → ℕ → Option FailureCount → Option FailureCount
open_window window now none = none
open_window window now (some f) = if leb window (now - f.since) then none else some f

pub window_of : Throttle → ℕ → Text → Option FailureCount
unfolding open_window
window_of t now key = open_window t.window now (lookup key t.failures)

-- A call that changes nothing of what the throttle counts, at its time and after.
record IsQuiet (now : ℕ) (t u : Throttle) : Type 0 where
  limit : u.limit ≡ t.limit
  window : u.window ≡ t.window
  same : (at : ℕ) (j : Text) → now ≤ at → window_of u at j ≡ window_of t at j

IsQuiet-refl : (now : ℕ) (t : Throttle) → IsQuiet now t t
IsQuiet-refl now t = record { limit = refl; window = refl; same = λ at j h. refl }

IsQuiet-trans : (now : ℕ) (t u v : Throttle) → IsQuiet now t u → IsQuiet now u v → IsQuiet now t v
IsQuiet-trans now t u v p q = record {
  limit = q.limit ∙ p.limit;
  window = q.window ∙ p.window;
  same = λ at j h. q.same at j h ∙ p.same at j h;
}

-- A window that is closed stays closed.
delete-closed :
    (t : Throttle) (now at : ℕ) (key j : Text) (f : FailureCount)
    → lookup key t.failures ≡ some f
    → leb t.window (now - f.since) ≡ true
    → now ≤ at
    → window_of (record t { failures = delete key t.failures }) at j ≡ window_of t at j
unfolding window_of open_window
delete-closed t now at key j f e c h = elim (Bool-cases (key == j)) [
  | inl same ↦ ground (
    arith,
    lookup-delete key j t.failures,
    text_eq_iff key j,
    ap (λ k. lookup k t.failures) ((text_eq_iff key j).0 same),
    e,
  )
  | inr other ↦ ground (arith, lookup-delete key j t.failures)
]

current-IsQuiet : (t : Throttle) (now : ℕ) (key : Text) → IsQuiet now t (current t now key).0
unfolding current
current-IsQuiet t now key = elim (Option-cases (lookup key t.failures)) [
  | inl e ↦ rw (e, current, drop_closed) (IsQuiet-refl now t)
  | inr (f, e) ↦ elim (Bool-cases (leb t.window (now - f.since))) [
    | inl c ↦
        rw (e, current, drop_closed)
          (rw (c, window_closed)
            (record {
              limit = refl;
              window = refl;
              same = λ at j h. delete-closed t now at key j f e c h;
            }))
    | inr c ↦ rw (e, current, drop_closed) (rw (c, window_closed) (IsQuiet-refl now t))
  ]
]

sweep_keys-IsQuiet :
    (entries : List (Text × FailureCount)) (t : Throttle) (now : ℕ)
    → IsQuiet now t (sweep_keys t now entries)
unfolding sweep_keys
sweep_keys-IsQuiet [] t now = IsQuiet-refl now t
sweep_keys-IsQuiet ((key, f) ∷ entries) t now =
    IsQuiet-trans now t (current t now key).0 _ (current-IsQuiet t now key)
      (sweep_keys-IsQuiet entries (current t now key).0 now)

sweep_full-IsQuiet : (t : Throttle) (now : ℕ) → IsQuiet now t (sweep_full t now)
unfolding sweep_full
sweep_full-IsQuiet t now = elim (Bool-cases (leb max_tracked_keys (length t.failures))) [
  | inl e ↦ rw (e, sweep_full) (sweep_keys-IsQuiet t.failures t now)
  | inr e ↦ rw (e, sweep_full) (IsQuiet-refl now t)
]

current-window : (t : Throttle) (now : ℕ) (key : Text) → (current t now key).1 ≡ window_of t now key
unfolding current window_of open_window drop_closed window_closed
current-window t now key = ground arith

-- The window that a failure leaves: one failure more, or the first of a new one.
unfoldable pub grown : ℕ → Option FailureCount → FailureCount
grown now none = record { n = 1; since = now }
grown now (some f) = record f { n = f.n + 1 }

counted-window :
    (t : Throttle) (now : ℕ) (key j : Text) (o : Option FailureCount) (at : ℕ)
    → window_of (counted t now key o) at j
      ≡ (if key == j then open_window t.window at (some (grown now o)) else window_of t at j)
unfolding counted window_of grown
counted-window t now key j none at =
    ground (arith, lookup-put key j (record { n = 1; since = now }) t.failures)
counted-window t now key j (some f) at =
    ground (arith, lookup-put key j (record f { n = f.n + 1 }) t.failures)

counted-settings :
    (t : Throttle) (now : ℕ) (key : Text) (o : Option FailureCount)
    → ((counted t now key o).limit ≡ t.limit) × ((counted t now key o).window ≡ t.window)
unfolding counted
counted-settings t now key none = (refl, refl)
counted-settings t now key (some f) = (refl, refl)

-- A failure adds one to its key's open window, or opens one; the windows of the other keys, seen at
-- its time or later, are what they were, also when the throttle is full and swept.
pub window_of-fail :
    (t : Throttle) (now : ℕ) (key j : Text) (at : ℕ)
    → now ≤ at
    → window_of (fail t now key) at j ≡ (
        if key == j
        then open_window t.window at (some (grown now (window_of t now key)))
        else window_of t at j)
unfolding fail
window_of-fail t now key j at h =
    let swept = sweep_full-IsQuiet t now in
    let read = current-IsQuiet (sweep_full t now) now key in
    let quiet =
      IsQuiet-trans now t (sweep_full t now) (current (sweep_full t now) now key).0 swept read in
    counted-window (current (sweep_full t now) now key).0 now key j
      (current (sweep_full t now) now key).1 at
    ∙ rw (
      current-window (sweep_full t now) now key,
      swept.same now key (omega arith),
      quiet.same at j h,
      quiet.window,
    )

pub fail-settings :
    (t : Throttle) (now : ℕ) (key : Text)
    → ((fail t now key).limit ≡ t.limit) × ((fail t now key).window ≡ t.window)
unfolding fail
fail-settings t now key =
    let swept = sweep_full-IsQuiet t now in
    let read = current-IsQuiet (sweep_full t now) now key in
    let c =
      counted-settings (current (sweep_full t now) now key).0 now key
        (current (sweep_full t now) now key).1 in
    (c.0 ∙ read.limit ∙ swept.limit, c.1 ∙ read.window ∙ swept.window)

unfoldable pub reached : ℕ → Option FailureCount → Bool
reached limit none = false
reached limit (some f) = leb limit f.n

pub blocked-window :
    (t : Throttle) (now : ℕ) (key : Text)
    → (blocked t now key).1 ≡ reached t.limit (window_of t now key)
unfolding blocked count_reached reached
blocked-window t now key =
    let quiet = current-IsQuiet t now key in
    rw (current-window t now key) (settled (current t now key).0 (window_of t now key) quiet.limit)
  where
    settled :
        (u : Throttle) (o : Option FailureCount)
        → u.limit ≡ t.limit
        → count_reached u o ≡ reached t.limit o
    settled u none e = refl
    settled u (some f) e = ap (λ n. leb n f.n) e

pub window_of-new :
    (limit window now : ℕ) (key : Text) → window_of (new_throttle limit window) now key ≡ none
unfolding window_of open_window new_throttle
window_of-new limit window now key = refl
