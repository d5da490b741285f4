-- ===== src/Auth/Throttle/Limits.antt =====
-- auth/throttle.go: a key's failures, one after another, and whether it is blocked.
use temporal_agent.Common.{
  ℕ, suc, ◌+◌, ◌-◌, ◌≤◌, ◌<◌, ◌≡◌, refl, ap, ◌∙◌, Bool, true, false, none, some, List, [], ◌∷◌,
  arith, leb, if◌then◌else◌, ◌==◌, Text, text_eq_iff, text_equality, number_equality,
}
use temporal_agent.Auth.Throttle.{FailureCount, Throttle, fail, blocked}
use temporal_agent.Auth.Throttle.Window.{
  open_window, window_of, window_of-fail, fail-settings, grown, reached, blocked-window,
}

-- Failures, each at its time for its key.
pub fail_all : Throttle → List (ℕ × Text) → Throttle
fail_all t [] = t
fail_all t ((now, key) ∷ failures) = fail_all (fail t now key) failures

abbrev pub count : Text → List (ℕ × Text) → ℕ
count key [] = 0
count key ((_, k) ∷ failures) = if k == key then suc (count key failures) else count key failures

-- In the order of time, from one time up to another.
abbrev pub Timed : ℕ → List (ℕ × Text) → ℕ → Type 0
Timed lo [] hi = lo ≤ hi
Timed lo ((now, _) ∷ failures) hi = (lo ≤ now) × Timed now failures hi

Timed-le : (lo : ℕ) (failures : List (ℕ × Text)) (hi : ℕ) → Timed lo failures hi → lo ≤ hi
Timed-le lo [] hi t = t
Timed-le lo ((now, _) ∷ failures) hi t = omega (arith, t.0, Timed-le now failures hi t.1)

still_open :
    (window now : ℕ) (f : FailureCount)
    → f.since ≤ now
    → now < f.since + window
    → open_window window now (some f) ≡ some f
unfolding open_window
still_open window now f h k = ground arith

fail_all-window :
    (failures : List (ℕ × Text)) (t : Throttle) (key : Text) (f : FailureCount) (lo hi : ℕ)
    → ((at : ℕ) → lo ≤ at → window_of t at key ≡ open_window t.window at (some f))
    → f.since ≤ lo
    → Timed lo failures hi
    → hi < f.since + t.window
    → ((fail_all t failures).limit ≡ t.limit)
      × ((at : ℕ)
          → hi ≤ at
          → window_of (fail_all t failures) at key
            ≡ open_window t.window at (some (record f { n = f.n + count key failures })))
unfolding fail_all open_window grown
fail_all-window [] t key f lo hi w s o inside = (
  refl,
  λ at h.
      w at (omega arith)
      ∙ ap (λ n. open_window t.window at (some (record f { n = n }))) (omega arith),
)
fail_all-window ((now, k) ∷ failures) t key f lo hi w s o inside =
    let (same_limit, same_window) = fail-settings t now k in
    let (limit, window) =
      fail_all-window failures (fail t now k) key (next (k == key)) now hi (stepped (k == key) refl)
        (next-since (k == key)) o.1 (next-inside (k == key)) in
    (
      limit ∙ same_limit,
      λ at h. window at h ∙ rw (same_window) (ap (open_window t.window at) (total (k == key) refl)),
    )
  where
    next : Bool → FailureCount
    next true = record f { n = f.n + 1 }
    next false = f

    next-since : (b : Bool) → (next b).since ≤ now
    next-since true = omega (arith, o.0)
    next-since false = omega (arith, o.0)

    next-inside : (b : Bool) → hi < (next b).since + (fail t now k).window
    next-inside true = rw ((fail-settings t now k).1) inside
    next-inside false = rw ((fail-settings t now k).1) inside

    total :
        (b : Bool)
        → (k == key) ≡ b
        → some (record (next b) { n = (next b).n + count key failures })
          ≡ some (record f { n = f.n + count key ((now, k) ∷ failures) })
    total true e = rw (e) (ap (λ n. some (record f { n = n })) (omega arith))
    total false e = rw (e) refl

    stepped :
        (b : Bool)
        → (k == key) ≡ b
        → (at : ℕ) → now ≤ at
        → window_of (fail t now k) at key ≡ open_window (fail t now k).window at (some (next b))
    stepped true e at h =
        window_of-fail t now k key at h
        ∙ rw
            (
              e,
              (text_eq_iff k key).0 e,
              w now o.0,
              still_open t.window now f (omega (arith, o.0))
                  (omega (arith, Timed-le now failures hi o.1)),
              (fail-settings t now key).1,
            )
            refl
    stepped false e at h =
        window_of-fail t now k key at h
        ∙ rw (e, (fail-settings t now k).1) (w at (omega (arith, o.0)))

-- From a key with no open window, a failure at `start` and then failures of any keys, all within its
-- window, up to a time `hi`: from `hi` on the key is blocked exactly while the window that its first failure
-- opened has not closed and its failures have reached the limit. The failures of other keys, the sweeps of
-- a full throttle included, do not count.
pub fail_all-blocks :
    (failures : List (ℕ × Text)) (t : Throttle) (key : Text) (start hi at : ℕ)
    → window_of t start key ≡ none
    → Timed start failures hi
    → hi < start + t.window
    → hi ≤ at
    → (blocked (fail_all (fail t start key) failures) at key).1
      ≡ (if leb t.window (at - start) then false else leb t.limit (1 + count key failures))
unfolding open_window grown reached
fail_all-blocks failures t key start hi at fresh timed inside later =
    let (same_limit, same_window) = fail-settings t start key in
    let (limit, window) =
      fail_all-window failures (fail t start key) key (record { n = 1; since = start }) start hi
        first (omega arith) timed (rw (same_window) inside) in
    blocked-window (fail_all (fail t start key) failures) at key
    ∙ rw (window at later, limit, same_limit, same_window) (settled (leb t.window (at - start)))
  where
    first :
        (now : ℕ)
        → start ≤ now
        → window_of (fail t start key) now key
          ≡ open_window (fail t start key).window now (some (record { n = 1; since = start }))
    first now h =
        window_of-fail t start key key now h
        ∙ rw ((text_eq_iff key key).1 refl, fresh, (fail-settings t start key).1) refl

    settled :
        (b : Bool)
        → reached t.limit
            (if b then none else some (record { n = 1 + count key failures; since = start }))
          ≡ (if b then false else leb t.limit (1 + count key failures))
    settled true = refl
    settled false = refl
