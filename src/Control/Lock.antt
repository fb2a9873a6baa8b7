-- ===== src/Control/Lock.antt =====
-- `PessimisticLock` of packages/control-plane/src/domain/config/config.service.ts. A waiter is
-- known by a number; `updateConfig` releases the lock once, in its `finally`.
use zonzon.Base.{
  ℕ, ◌≡◌, refl, Bool, true, false, Option, none, some, List, [], ◌∷◌, ◌++◌, arith, length,
  length-append,
}

pub record PessimisticLock : Type 0 where
  pub locked : Bool
  pub queue : List ℕ

-- whether the lock is had at once, and the lock after it
unfoldable pub acquire : ℕ → PessimisticLock → Bool × PessimisticLock
acquire waiter l = elim (l.locked) [
  | false ↦ (true, record l { locked = true })
  | true ↦ (false, record l { queue = l.queue ++ (waiter ∷ []) })
]

abbrev pub hand_over : List ℕ → PessimisticLock → Option ℕ × PessimisticLock
hand_over [] l = (none, record l { locked = false })
hand_over (next ∷ rest) l = (some next, record l { queue = rest })

-- the waiter that goes on, and the lock after it
unfoldable pub release : PessimisticLock → Option ℕ × PessimisticLock
release l = hand_over l.queue l

-- The lock and the updates that run.
pub record Updates : Type 0 where
  pub lock : PessimisticLock
  pub running : List ℕ

abbrev pub enters : ℕ → Bool → List ℕ → List ℕ
enters waiter false running = running
enters waiter true running = waiter ∷ running

abbrev pub resumes : Option ℕ → List ℕ → List ℕ
resumes none running = running
resumes (some next) running = next ∷ running

-- An update asks for the lock, or one that runs ends.
pub data Step : Updates → Updates → Type 0 where
  asks :
      (waiter : ℕ) (u : Updates)
      → Step u (record {
        lock = (acquire waiter u.lock).1;
        running = enters waiter (acquire waiter u.lock).0 u.running;
      })
  ends :
      (waiter : ℕ) (before after : List ℕ) (l : PessimisticLock)
      → Step
          (record { lock = l; running = before ++ (waiter ∷ after) })
          (record { lock = (release l).1; running = resumes (release l).0 (before ++ after) })

pub data Reachable : Updates → Type 0 where
  start : Reachable (record { lock = record { locked = false; queue = [] }; running = [] })
  next : (u v : Updates) → Reachable u → Step u v → Reachable v

abbrev count : Bool → ℕ
count false = 0
count true = 1

-- As many updates run as the lock says, and nobody waits for a free lock.
pub record IsExclusive (u : Updates) : Type 0 where
  pub runs : length u.running ≡ count u.lock.locked
  pub waits : u.lock.locked ≡ false → u.lock.queue ≡ []

asks-IsExclusive :
    (waiter : ℕ) (locked : Bool) (queue running : List ℕ)
    → IsExclusive (record { lock = record { locked = locked; queue = queue }; running = running })
    → IsExclusive (record {
      lock = (acquire waiter (record { locked = locked; queue = queue })).1;
      running =
          enters waiter (acquire waiter (record { locked = locked; queue = queue })).0 running;
    })
unfolding acquire
asks-IsExclusive waiter false queue running h = record {
  runs = omega (arith, h.runs);
  waits = λ e. absurd (ground (arith, e));
}
asks-IsExclusive waiter true queue running h = record {
  runs = h.runs;
  waits = λ e. absurd (ground (arith, e));
}

ends-IsExclusive :
    (waiter : ℕ) (before after queue : List ℕ) (locked : Bool)
    → IsExclusive (record {
      lock = record { locked = locked; queue = queue };
      running = before ++ (waiter ∷ after);
    })
    → IsExclusive (record {
      lock = (release (record { locked = locked; queue = queue })).1;
      running = resumes (release (record { locked = locked; queue = queue })).0 (before ++ after);
    })
unfolding release
ends-IsExclusive waiter before after queue false h =
    absurd (omega (arith, h.runs, length-append before (waiter ∷ after)))
ends-IsExclusive waiter before after [] true h = record {
  runs = omega (arith, h.runs, length-append before (waiter ∷ after), length-append before after);
  waits = λ e. refl;
}
ends-IsExclusive waiter before after (n ∷ rest) true h = record {
  runs = omega (arith, h.runs, length-append before (waiter ∷ after), length-append before after);
  waits = λ e. absurd (ground (arith, e));
}

Step-IsExclusive : (u v : Updates) → IsExclusive u → Step u v → IsExclusive v
Step-IsExclusive u v h (asks waiter u') =
    asks-IsExclusive waiter u'.lock.locked u'.lock.queue u'.running h
Step-IsExclusive u v h (ends waiter before after l) =
    ends-IsExclusive waiter before after l.queue l.locked h

-- However updates ask for the lock and end, at most one of them runs, one runs exactly while the
-- lock is held, and nobody waits for a free lock.
pub Reachable-IsExclusive : (u : Updates) → Reachable u → IsExclusive u
Reachable-IsExclusive u start = record { runs = refl; waits = λ e. refl }
Reachable-IsExclusive v (next u v' before step) =
    Step-IsExclusive u v' (Reachable-IsExclusive u before) step

unfoldable pub locking : Unit {0}
unfolding acquire release
locking = tt
