-- ===== src/Watchdog/Race.antt =====
-- The race between a timer that fires and the calls that arm and disarm the watchdog of
-- services/rag-service/src/rag/transport/watchdog.py.
use rag_poc.Prelude.{
  ℕ, ◌+◌, ◌<◌, ◌≤◌, ◌≡◌, refl, sym, ap, subst, ◌∙◌, ◌↔◌, ◌⊎◌, inl, inr, Bool, true, false, Option,
  none, some, List, [], ◌∷◌, In, All, All-In, All-map, ◌==◌, ==_iff, arith, if◌then◌else◌,
  Bool-cases, ok, err,
}
use rag_poc.Failure.{Failure}
use rag_poc.Watchdog.{Watchdog, make, arm, disarm, fire, exit}

-- One step of the watchdog: a call of the consumer, the test of a timer that was ever started and
-- fires, or the exit of one that has passed it. Any steps may come between the test and the exit.
pub data Step (w : Watchdog) : Watchdog → Type 0 where
  arms : Step w (arm w)
  disarms : Step w (disarm w)
  fires : (g : ℕ) → In g w.started → Step w (fire g w)
  exits : (g : ℕ) → In g w.passed → Step w (exit w)

-- The states that any order of calls and fires leads to.
pub data Reaches (w : Watchdog) : Watchdog → Type 0 where
  start : Reaches w w
  step : {v u : Watchdog} → Reaches w v → Step v u → Reaches w u

-- The current timer, if any, has the current generation; without one, no timer has it.
abbrev TimerFits : Option ℕ → ℕ → List ℕ → Type 0
TimerFits (some g) generation started = g ≡ generation
TimerFits none generation started = All (λ g. g < generation) started

record IsConsistent (w : Watchdog) : Type 0 where
  bounded : All (λ g. g ≤ w.generation) w.started
  timer : TimerFits w.timer w.generation w.started

kept_bound : (n : ℕ) (gs : List ℕ) → All (λ g. g ≤ n) gs → All (λ g. g ≤ n + 1) gs
kept_bound n gs h = All-map (λ g. g ≤ n) (λ g. g ≤ n + 1) (λ g k. omega arith) gs h

outdated : (n : ℕ) (gs : List ℕ) → All (λ g. g ≤ n) gs → All (λ g. g < n + 1) gs
outdated n gs h = All-map (λ g. g ≤ n) (λ g. g < n + 1) (λ g k. omega arith) gs h

Step-IsConsistent : (w v : Watchdog) → IsConsistent w → Step w v → IsConsistent v
unfolding arm disarm fire exit
Step-IsConsistent w _ c arms = record {
  bounded = (omega arith, kept_bound w.generation w.started c.bounded);
  timer = refl;
}
Step-IsConsistent w _ c disarms = record {
  bounded = kept_bound w.generation w.started c.bounded;
  timer = outdated w.generation w.started c.bounded;
}
Step-IsConsistent w _ c (fires g i) = elim (Bool-cases (g == w.generation)) [
  | inl e ↦ rw e (record { bounded = c.bounded; timer = c.timer })
  | inr e ↦ rw e c
]
Step-IsConsistent w _ c (exits g i) = record { bounded = c.bounded; timer = c.timer }

Reaches-IsConsistent : (w v : Watchdog) → IsConsistent w → Reaches w v → IsConsistent v
Reaches-IsConsistent w _ c start = c
Reaches-IsConsistent w _ c (step r s) = Step-IsConsistent _ _ (Reaches-IsConsistent w _ c r) s

-- A watchdog that was just made, with its timeout.
abbrev new_watchdog : ℕ → Watchdog
new_watchdog timeout = record {
  timeout = timeout;
  timer = none;
  generation = 0;
  started = [];
  passed = [];
  exited = false;
}

made : (b : Bool) (e : Failure) (v w : Watchdog) → (if b then err e else ok v) ≡ ok w → v ≡ w
made true e v w h = absurd (cc h)
made false e v w h = cc h

make-IsConsistent : (timeout : ℕ) (w : Watchdog) → make timeout ≡ ok w → IsConsistent w
unfolding make
make-IsConsistent timeout w h =
    subst IsConsistent (made (timeout == 0) _ (new_watchdog timeout) w h)
      (record { bounded = tt; timer = tt })

-- Whether the timer g is the current one, by the test of _fire.
current_iff :
    (timer : Option ℕ) (generation : ℕ) (started : List ℕ) (g : ℕ)
    → TimerFits timer generation started
    → In g started
    → ((g == generation) ≡ true) ↔ (timer ≡ some g)
current_iff none generation started g t i =
    let old : g < generation = All-In (λ g. g < generation) g started t i in
    (λ e. absurd (omega (arith, (==_iff g generation).0 e)), λ e. absurd (cc e))
current_iff (some k) generation started g t i = (
  λ e. ap some (t ∙ sym ((==_iff g generation).0 e)),
  λ e. (==_iff g generation).1 (sym (cc e) ∙ t),
)

-- What the test of _fire does with the timer g.
abbrev pub IsTested : ℕ → Watchdog → Watchdog → Type 0
IsTested g v u =
    ((v.timer ≡ some g) × (u ≡ record v { passed = g ∷ v.passed }))
    ⊎ (¬ (v.timer ≡ some g) × (u ≡ v))

fire-IsTested : (v : Watchdog) (g : ℕ) → IsConsistent v → In g v.started → IsTested g v (fire g v)
unfolding fire
fire-IsTested v g c i =
    let (k, k') = current_iff v.timer v.generation v.started g c.timer i in
    elim (Bool-cases (g == v.generation)) [
      | inl e ↦ rw e (inl (k e, refl))
      | inr e ↦ rw e (inr (λ t. absurd (cc (k' t, e)), refl))
    ]

-- Between w and v the timer g had its test at a moment at which it was the current one.
abbrev pub PassedTest : Watchdog → Watchdog → ℕ → Type 0
PassedTest w v g =
    (u : Watchdog) × Reaches w u × In g u.started × (u.timer ≡ some g) × Reaches (fire g u) v

later : {w v u : Watchdog} {g : ℕ} → PassedTest w v g → Step v u → PassedTest w u g
later (t, r, i, e, r') s = (t, r, i, e, step r' s)

-- What led to each timer that has passed the test, and to the exit.
record IsExplained (w v : Watchdog) : Type 0 where
  passed : (g : ℕ) → In g v.passed → PassedTest w v g
  exited : v.exited ≡ true → (g : ℕ) × PassedTest w v g

Step-IsExplained :
    (w v u : Watchdog) → IsConsistent v → Reaches w v → IsExplained w v → Step v u → IsExplained w u
unfolding arm disarm exit
Step-IsExplained w v _ c r h arms = record {
  passed = λ g i. later (h.passed g i) arms;
  exited = λ e. let (g, p) = h.exited e in (g, later p arms);
}
Step-IsExplained w v _ c r h disarms = record {
  passed = λ g i. later (h.passed g i) disarms;
  exited = λ e. let (g, p) = h.exited e in (g, later p disarms);
}
Step-IsExplained w v _ c r h (exits g i) = record {
  passed = λ k j. later (h.passed k j) (exits g i);
  exited = λ e. (g, later (h.passed g i) (exits g i));
}
Step-IsExplained w v _ c r h (fires g i) = of_test (fire-IsTested v g c i)
  where
    of_test : IsTested g v (fire g v) → IsExplained w (fire g v)
    of_test (inr (k, same)) = record {
      passed = λ k j. later (h.passed k (subst (λ t. In k t.passed) same j)) (fires g i);
      exited = λ e.
          let (k, p) = h.exited (subst (λ t. t.exited ≡ true) same e) in (k, later p (fires g i));
    }
    of_test (inl (current, same)) = record {
      passed = λ k j. newly k (subst (λ t. In k t.passed) same j);
      exited = λ e.
          let (k, p) = h.exited (subst (λ t. t.exited ≡ true) same e) in (k, later p (fires g i));
    }
      where
        newly : (k : ℕ) → In k (g ∷ v.passed) → PassedTest w (fire g v) k
        newly k (inl e) = subst (PassedTest w (fire g v)) (sym e) (v, r, i, current, start)
        newly k (inr j) = later (h.passed k j) (fires g i)

Reaches-IsExplained :
    (w v : Watchdog) → IsConsistent w → IsExplained w w → Reaches w v → IsExplained w v
Reaches-IsExplained w _ c h start = h
Reaches-IsExplained w _ c h (step r s) =
    Step-IsExplained w _ _ (Reaches-IsConsistent w _ c r) r (Reaches-IsExplained w _ c h r) s

make-IsExplained : (timeout : ℕ) (w : Watchdog) → make timeout ≡ ok w → IsExplained w w
unfolding make
make-IsExplained timeout w h =
    subst (λ v. IsExplained v v) (made (timeout == 0) _ (new_watchdog timeout) w h)
      (record { passed = λ g i. absurd i; exited = λ e. absurd (cc e) })

-- After any order of arms, disarms, tests and exits, a timer that fires passes its test if and only if
-- it is the current timer: one that was cancelled by a disarm or replaced by a later arm before its
-- test changes nothing, even if its callback had begun. The process has not been ended, unless some
-- timer had its test at a moment at which it was the current one.
pub fire_iff_current :
    (timeout : ℕ) (w v : Watchdog) (g : ℕ)
    → make timeout ≡ ok w
    → Reaches w v
    → In g v.started
    → IsTested g v (fire g v) × ((v.exited ≡ false) ⊎ ((k : ℕ) × PassedTest w v k))
fire_iff_current timeout w v g m r i =
    let c : IsConsistent w = make-IsConsistent timeout w m in
    let explained = Reaches-IsExplained w v c (make-IsExplained timeout w m) r in
    (
      fire-IsTested v g (Reaches-IsConsistent w v c r) i,
      elim (Bool-cases v.exited) [ inl e ↦ inr (explained.exited e) | inr e ↦ inl e ],
    )
