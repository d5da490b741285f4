-- ===== src/Auth/Throttle.antt =====
-- auth/throttle.go: failures per key within a window, and the login limits made of two of them.
-- Times are numbers of nanoseconds; a call reads the clock once. A nil throttle is `none`.
pub mod Window
pub mod Limits
mod Samples
use temporal_agent.Common.{
  ℕ, suc, ◌+◌, ◌-◌, ◌*◌, ◌/◌, ◌^◌, min, max, Bool, true, false, not, ◌||◌, Option, none, some, List,
  [], ◌∷◌, leb, if◌then◌else◌, length, all, ◌==◌, Text, text_equality, number_equality, lookup, put,
  delete,
}

pub record FailureCount : Type 0 where
  pub n : ℕ
  pub since : ℕ

pub record Throttle : Type 0 where
  pub limit : ℕ
  pub window : ℕ
  pub failures : List (Text × FailureCount)

abbrev pub max_tracked_keys : ℕ
max_tracked_keys = 10000

pub new_throttle : ℕ → ℕ → Throttle
new_throttle limit window = record { limit = limit; window = window; failures = [] }

-- The window is closed: t.now().Sub(f.since) >= t.Window
window_closed : Throttle → ℕ → FailureCount → Bool
window_closed t now f = leb t.window (now - f.since)

drop_closed : Throttle → ℕ → Text → Option FailureCount → Throttle × Option FailureCount
drop_closed t now key none = (t, none)
drop_closed t now key (some f) =
    if window_closed t now f
    then (record t { failures = delete key t.failures }, none)
    else (t, some f)

-- The key's open window, dropping a closed one.
pub current : Throttle → ℕ → Text → Throttle × Option FailureCount
unfolding drop_closed window_closed
current t now key = drop_closed t now key (lookup key t.failures)

count_reached : Throttle → Option FailureCount → Bool
count_reached t none = false
count_reached t (some f) = leb t.limit f.n

pub blocked : Throttle → ℕ → Text → Throttle × Bool
unfolding current count_reached
blocked t now key = let (t', f) = current t now key in (t', count_reached t' f)

-- `for k := range t.failures { t.current(k) }`
pub sweep_keys : Throttle → ℕ → List (Text × FailureCount) → Throttle
sweep_keys t now [] = t
sweep_keys t now ((key, f) ∷ failures) = sweep_keys (current t now key).0 now failures

counted : Throttle → ℕ → Text → Option FailureCount → Throttle
counted t now key none = record t { failures = put key (record { n = 1; since = now }) t.failures }
counted t now key (some f) = record t { failures = put key (record f { n = f.n + 1 }) t.failures }

sweep_full : Throttle → ℕ → Throttle
sweep_full t now =
    if leb max_tracked_keys (length t.failures) then sweep_keys t now t.failures else t

pub fail : Throttle → ℕ → Text → Throttle
unfolding current counted sweep_full sweep_keys
fail t now key =
    let swept = sweep_full t now in let (t', f) = current swept now key in counted t' now key f

pub reset : Throttle → Text → Throttle
reset t key = record t { failures = delete key t.failures }

-- The methods on a nil throttle.
pub blocked_by : Option Throttle → ℕ → Text → Option Throttle × Bool
blocked_by none now key = (none, false)
blocked_by (some t) now key = let (t', b) = blocked t now key in (some t', b)

pub fail_on : Option Throttle → ℕ → Text → Option Throttle
fail_on none now key = none
fail_on (some t) now key = some (fail t now key)

pub reset_on : Option Throttle → Text → Option Throttle
reset_on none key = none
reset_on (some t) key = some (reset t key)

pub record LoginLimits : Type 0 where
  pub per_client : Option Throttle
  pub per_account : Option Throttle

abbrev pub minutes : ℕ → ℕ
minutes n = n * (60 * 10 ^ 9)

-- `known`: whether the clients' own addresses are known.
pub default_login_limits : Bool → LoginLimits
default_login_limits known = record {
  per_client = if known then some (new_throttle 20 (minutes 15)) else none;
  per_account = some (new_throttle 10 (minutes 15));
}

-- `fold` is strings.ToLower(strings.TrimSpace(email)): the key of an account.
module _ (fold : Text → Text) where
  pub account_key : Text → Text
  account_key email = fold email

  -- Whether a login is refused for now. `||` does not look at the account once the client is.
  pub limits_blocked : LoginLimits → ℕ → Text → Text → LoginLimits × Bool
  limits_blocked l now client email =
      let (c, client_blocked) =
        if client == [] then (l.per_client, false) else blocked_by l.per_client now client in
      let (a, account_blocked) = blocked_by l.per_account now (account_key email) in
      if client_blocked
      then (record l { per_client = c }, true)
      else (record { per_client = c; per_account = a }, account_blocked)

  pub limits_fail : LoginLimits → ℕ → Text → Text → LoginLimits
  limits_fail l now client email = record {
    per_client = if client == [] then l.per_client else fail_on l.per_client now client;
    per_account = fail_on l.per_account now (account_key email);
  }

  pub limits_succeed : LoginLimits → Text → LoginLimits
  limits_succeed l email = record l { per_account = reset_on l.per_account (account_key email) }
