-- ===== src/Breaker.antt =====
-- `ProxyCircuitBreaker` and `getCircuitBreaker` of packages/core/src/http-handler.ts. `execute` is
-- two steps: up to the `await` of the action, and from its outcome on. Other calls come between.
pub mod States
mod Tests
use zonzon.Base.{
  ℕ, zero, suc, ◌+◌, ◌-◌, Bool, ◌&&◌, not, Option, none, some, List, [], ◌∷◌, ◌++◌, ◌≡◌, ltb, leb,
  if◌then◌else◌, length,
}
use zonzon.Base.Text.{Text}
use zonzon.Base.OrderedMap.{OrderedMap, get, set_key, delete_oldest, maps}

pub data CircuitState : Type 0 where
  closed opened half_open : CircuitState

pub record CircuitBreaker : Type 0 where
  pub state : CircuitState
  pub failures : ℕ
  pub last_failure_time : ℕ

abbrev pub threshold : ℕ
threshold = 5

abbrev pub reset_timeout_ms : ℕ
reset_timeout_ms = 10000

abbrev pub new_breaker : CircuitBreaker
new_breaker = record { state = closed; failures = 0; last_failure_time = 0 }

-- `execute` up to the action; `none` is the error that the target is offline
abbrev pub enter_state : CircuitState → ℕ → CircuitBreaker → Option CircuitBreaker
enter_state opened now b =
    if ltb reset_timeout_ms (now - b.last_failure_time)
    then some (record b { state = half_open })
    else none
enter_state closed now b = some b
enter_state half_open now b = some b

unfoldable pub enter : ℕ → CircuitBreaker → Option CircuitBreaker
enter now b = enter_state b.state now b

abbrev pub reset : CircuitBreaker → CircuitBreaker
reset b = record b { state = closed; failures = 0 }

-- the action has given a result
abbrev pub succeed_state : CircuitState → CircuitBreaker → CircuitBreaker
succeed_state half_open b = reset b
succeed_state closed b = b
succeed_state opened b = b

unfoldable pub succeed : CircuitBreaker → CircuitBreaker
succeed b = succeed_state b.state b

-- `failures >= threshold && state !== OPEN`: the state is OPEN afterwards in either case
abbrev pub trip : CircuitState → ℕ → CircuitState
trip opened failures = opened
trip closed failures = if leb threshold failures then opened else closed
trip half_open failures = if leb threshold failures then opened else half_open

-- the action has thrown; `time` is when its `execute` was called
unfoldable pub record_failure : ℕ → CircuitBreaker → CircuitBreaker
record_failure time b = record {
  state = trip b.state (b.failures + 1);
  failures = b.failures + 1;
  last_failure_time = time;
}

-- The calls whose action is running, by the time of their start, and the breaker.
pub record Running : Type 0 where
  pub calls : List ℕ
  pub breaker : CircuitBreaker

-- What can happen next, in any order.
pub data Step : Running → Running → Type 0 where
  admits :
      (now : ℕ) (calls : List ℕ) (b b' : CircuitBreaker)
      → enter now b ≡ some b'
      → Step (record { calls = calls; breaker = b }) (record { calls = now ∷ calls; breaker = b' })
  rejects : (now : ℕ) (r : Running) → enter now r.breaker ≡ none → Step r r
  succeeds :
      (before after : List ℕ) (time : ℕ) (b : CircuitBreaker)
      → Step
          (record { calls = before ++ (time ∷ after); breaker = b })
          (record { calls = before ++ after; breaker = succeed b })
  fails :
      (before after : List ℕ) (time : ℕ) (b : CircuitBreaker)
      → Step
          (record { calls = before ++ (time ∷ after); breaker = b })
          (record { calls = before ++ after; breaker = record_failure time b })

pub data Reachable : Running → Type 0 where
  start : Reachable (record { calls = []; breaker = new_breaker })
  next : (r s : Running) → Reachable r → Step r s → Reachable s

abbrev pub max_breakers : ℕ
max_breakers = 10000

-- the map after `getCircuitBreaker`, and the breaker
unfoldable pub get_circuit_breaker :
    Text → OrderedMap CircuitBreaker → OrderedMap CircuitBreaker × CircuitBreaker
get_circuit_breaker upstream m = elim (get upstream m) [
  | some b ↦ (m, b)
  | none ↦ (
    set_key upstream new_breaker (if leb max_breakers (length m) then delete_oldest m else m),
    new_breaker,
  )
]

unfoldable pub breakers : Unit {0}
unfolding maps enter succeed record_failure get_circuit_breaker
breakers = tt
