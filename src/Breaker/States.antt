-- ===== src/Breaker/States.antt =====
-- The state of the circuit breaker against its count of failures, whatever calls overlap.
use zonzon.Base.{
  ℕ, ◌+◌, ◌-◌, ◌≤◌, ◌<◌, ◌≡◌, ◌≢◌, ◌↔◌, refl, none, some, arith, length, leb, ltb, true, Bool-cases,
  Option-cases, if◌then◌else◌, some-eq-some, inl, inr,
}
use zonzon.Base.Text.{Text, text_eq_refl}
use zonzon.Base.OrderedMap.{
  OrderedMap, get, get-set_key, length-set_key-le, length-delete_oldest, delete_oldest,
}
use zonzon.Breaker.{
  CircuitState, closed, opened, half_open, CircuitBreaker, threshold, reset_timeout_ms, new_breaker,
  reset, enter_state, succeed_state, enter, succeed, record_failure, Running, Step, admits, rejects,
  succeeds, fails, Reachable, start, next, get_circuit_breaker, max_breakers, trip,
}

-- Below the threshold while closed, at or above it otherwise.
abbrev pub Counts : CircuitState → ℕ → Type 0
Counts closed n = n < threshold
Counts opened n = threshold ≤ n
Counts half_open n = threshold ≤ n

abbrev pub IsSound : CircuitBreaker → Type 0
IsSound b = Counts b.state b.failures

enter_state-IsSound :
    (state : CircuitState) (now : ℕ) (b b' : CircuitBreaker)
    → Counts state b.failures
    → IsSound b
    → enter_state state now b ≡ some b'
    → IsSound b'
enter_state-IsSound closed now b b' c h e = rw (← some-eq-some e) h
enter_state-IsSound half_open now b b' c h e = rw (← some-eq-some e) h
enter_state-IsSound opened now b b' c h e =
    elim (Bool-cases (ltb reset_timeout_ms (now - b.last_failure_time))) [
      | inl late ↦ rw (← some-eq-some (rw late at e)) c
      | inr early ↦ absurd (ground (arith, rw early at e))
    ]

succeed_state-IsSound :
    (state : CircuitState) (b : CircuitBreaker) → IsSound b → IsSound (succeed_state state b)
succeed_state-IsSound closed b h = h
succeed_state-IsSound opened b h = h
succeed_state-IsSound half_open b h = omega arith

trip-Counts : (s : CircuitState) (n : ℕ) → Counts s n → Counts (trip s (n + 1)) (n + 1)
trip-Counts opened n h = omega arith
trip-Counts closed n h = elim (Bool-cases (leb threshold (n + 1))) [
  | inl many ↦ rw many (ground arith)
  | inr few ↦ rw few (ground arith)
]
trip-Counts half_open n h = elim (Bool-cases (leb threshold (n + 1))) [
  | inl many ↦ rw many (ground arith)
  | inr few ↦ rw few (ground arith)
]

Step-IsSound : (r s : Running) → IsSound r.breaker → Step r s → IsSound s.breaker
unfolding enter succeed record_failure
Step-IsSound r s h (admits now calls b b' e) = enter_state-IsSound b.state now b b' h h e
Step-IsSound r s h (rejects now r' e) = h
Step-IsSound r s h (succeeds before after time b) = succeed_state-IsSound b.state b h
Step-IsSound r s h (fails before after time b) = trip-Counts b.state b.failures h

-- However the calls overlap, the breaker is closed exactly while it has counted fewer failures than
-- the threshold: it is open or half open from the fifth failure on.
pub Reachable-IsSound : (r : Running) → Reachable r → IsSound r.breaker
Reachable-IsSound r start = omega arith
Reachable-IsSound s (next r s' before step) = Step-IsSound r s' (Reachable-IsSound r before) step

closed_iff : (state : CircuitState) (n : ℕ) → Counts state n → (state ≡ closed) ↔ (n < threshold)
closed_iff closed n h = ((λ e. h), λ less. refl)
closed_iff opened n h = ((λ e. cc), λ less. absurd (omega arith))
closed_iff half_open n h = ((λ e. cc), λ less. absurd (omega arith))

reopens :
    (state : CircuitState) (n : ℕ) → Counts state n → state ≢ closed → trip state (n + 1) ≡ opened
reopens closed n h k = absurd (k refl)
reopens opened n h k = refl
reopens half_open n h k = let many : leb threshold (n + 1) ≡ true = ground arith in rw many refl

-- In a reachable state that is half open, one failure opens the breaker again, and one success
-- closes it and clears the count.
pub half_open_decides :
    (r : Running) (time : ℕ)
    → Reachable r
    → r.breaker.state ≡ half_open
    → ((record_failure time r.breaker).state ≡ opened) × (succeed r.breaker ≡ reset r.breaker)
unfolding record_failure succeed
half_open_decides r time reached e = (
  reopens r.breaker.state r.breaker.failures (Reachable-IsSound r reached)
      (λ c. absurd (ground (arith, e, c))),
  rw e refl,
)

rejects_iff :
    (state : CircuitState) (now : ℕ) (b : CircuitBreaker)
    → (enter_state state now b ≡ none)
      ↔ ((state ≡ opened) × (now ≤ b.last_failure_time + reset_timeout_ms))
rejects_iff closed now b = ((λ e. cc), λ (e, _). cc)
rejects_iff half_open now b = ((λ e. cc), λ (e, _). cc)
rejects_iff opened now b = ground arith

-- A call is rejected exactly while the breaker is open and no more than the reset time has passed
-- since the last failure.
pub enter_rejects_iff :
    (now : ℕ) (b : CircuitBreaker)
    → (enter now b ≡ none) ↔ ((b.state ≡ opened) × (now ≤ b.last_failure_time + reset_timeout_ms))
unfolding enter
enter_rejects_iff now b = rejects_iff b.state now b

-- The breakers kept for the upstreams never exceed their maximum, and the breaker handed out is the
-- one that is kept for the upstream.
pub get_circuit_breaker-bounded :
    (upstream : Text) (m : OrderedMap CircuitBreaker)
    → length m ≤ max_breakers
    → (length (get_circuit_breaker upstream m).0 ≤ max_breakers)
      × (get upstream (get_circuit_breaker upstream m).0 ≡ some (get_circuit_breaker upstream m).1)
unfolding get_circuit_breaker
get_circuit_breaker-bounded upstream m h = elim (Option-cases (get upstream m)) [
  | inr (b, e) ↦ rw (e, get_circuit_breaker) (h, e)
  | inl e ↦
      let smaller = if leb max_breakers (length m) then delete_oldest m else m in
      let less : length smaller < max_breakers = ground (arith, length-delete_oldest m) in
      rw (e, get_circuit_breaker)
        (
          omega (arith, less, length-set_key-le upstream new_breaker smaller),
          rw (get-set_key upstream upstream new_breaker smaller, text_eq_refl upstream) refl,
        )
]
