-- ===== src/Watchdog/Tests.antt =====
-- The race of the watchdog of services/rag-service/src/rag/transport/watchdog.py at a concrete run.
use rag_poc.Prelude.{ℕ, ◌≡◌, ◌⊎◌, refl, inl, inr, false, none, [], In, ok}
use rag_poc.Watchdog.{Watchdog, make, arm, disarm, fire}
use rag_poc.Watchdog.Race.{start, step, arms, disarms, IsTested, PassedTest, fire_iff_current}

abbrev fresh : Watchdog
fresh = record {
  timeout = 5;
  timer = none;
  generation = 0;
  started = [];
  passed = [];
  exited = false;
}

made_fresh : make 5 ≡ ok fresh
unfolding make
made_fresh = refl

-- Armed for one job, disarmed, and armed for the next.
abbrev second_job : Watchdog
second_job = arm (disarm (arm fresh))

first_started : In 1 second_job.started
unfolding arm disarm
first_started = inr (inl refl)

-- The first job's timer fires late, in the second job.
fire_iff_current_example :
    IsTested 1 second_job (fire 1 second_job)
    × ((second_job.exited ≡ false) ⊎ ((k : ℕ) × PassedTest fresh second_job k))
fire_iff_current_example =
    fire_iff_current 5 fresh second_job 1 made_fresh (step (step (step start arms) disarms) arms)
      first_started
