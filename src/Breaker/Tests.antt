-- ===== src/Breaker/Tests.antt =====
-- A breaker that five failures open, and the instances of its theorems.
use zonzon.Base.{ℕ, ◌≡◌, refl, some, [], ◌∷◌}
use zonzon.Base.Text.{codes}
use zonzon.Base.OrderedMap.{OrderedMap}
use zonzon.Breaker.{
  CircuitState, closed, opened, half_open, CircuitBreaker, new_breaker, enter, record_failure,
  Running, Reachable, start, next, admits, fails, breakers,
}
use zonzon.Breaker.States.{IsSound, Reachable-IsSound}

abbrev after_failures : ℕ → CircuitState → CircuitBreaker
after_failures n state = record { state = state; failures = n; last_failure_time = 7 }

abbrev idle : CircuitBreaker → Running
idle b = record { calls = []; breaker = b }

-- One call at the time 7 that fails.
failing :
    (b b' : CircuitBreaker)
    → enter 7 b ≡ some b'
    → Reachable (idle b)
    → Reachable (idle (record_failure 7 b'))
failing b b' e r =
    next (record { calls = 7 ∷ []; breaker = b' }) (idle (record_failure 7 b'))
      (next (idle b) (record { calls = 7 ∷ []; breaker = b' }) r (admits 7 [] b b' e))
      (fails [] [] 7 b')

five_failures : Reachable (idle (after_failures 5 opened))
unfolding breakers
five_failures = failing (after_failures 4 closed) (after_failures 4 closed) refl (
    failing (after_failures 3 closed) (after_failures 3 closed) refl (
      failing (after_failures 2 closed) (after_failures 2 closed) refl (
        failing (after_failures 1 closed) (after_failures 1 closed) refl
          (failing new_breaker new_breaker refl start))))

abbrev trying : Running
trying = record { calls = 10008 ∷ []; breaker = after_failures 5 half_open }

half_open_reached : Reachable trying
unfolding breakers
half_open_reached =
    next (idle (after_failures 5 opened)) trying five_failures
      (admits 10008 [] (after_failures 5 opened) (after_failures 5 half_open) refl)

Reachable-IsSound_example : IsSound (after_failures 5 opened)
Reachable-IsSound_example = Reachable-IsSound (idle (after_failures 5 opened)) five_failures

abbrev upstreams : OrderedMap CircuitBreaker
upstreams = (codes "u", after_failures 2 closed) ∷ []
