-- ===== src/Config/Timing.antt =====
-- What the timing rules of services/rag-service/src/rag/core/config_reader.py buy the consumer.
use rag_poc.Prelude.{
  ℕ, ◌+◌, ◌*◌, ◌≤◌, ◌<◌, ◌≡◌, refl, leb, leb→gt, [], ◌∷◌, ◌++◌, arith, if◌then◌else◌, Bool, true,
  false,
}
use Prim.Native.Nat.{max}
use rag_poc.Deadline
use rag_poc.Config.{Config, check_timing, from_config, socket_timeout_for, second, TimingProblem}
use rag_poc.Consumer.{Settings}

-- The margins of a consumer with these settings and this grace of the watchdog, for a job that is
-- started at any time: its deadline and the grace after it end before the entry can be reclaimed,
-- and a consumer that is running a job is not idle enough to be deleted.
pub record HasMargin (grace : ℕ) (s : Settings) : Type 0 where
  pub reclaimed_later :
      (started : ℕ)
      → (Deadline.after started s.job_timeout).expires_at + grace < started + s.min_idle
  pub deleted_later : s.job_timeout < s.cleanup_idle

no_problems :
    (b d : Bool) (p q : TimingProblem)
    → ((if b then p ∷ [] else []) ++ (if d then q ∷ [] else [])) ≡ []
    → (b ≡ false) × (d ≡ false)
no_problems true d p q h = absurd (cc h)
no_problems false true p q h = absurd (cc h)
no_problems false false p q h = (refl, refl)

le-max_right : (a b : ℕ) → b ≤ max a b
le-max_right a b = omega arith

-- Settings that come from a configuration without timing problems have these margins, and a
-- publish attempt is allowed for longer than one blocking read and its call together.
pub from_config-HasMargin :
    (config : Config)
    → check_timing config.rag.consumer ≡ []
    → HasMargin config.rag.consumer.watchdog_grace (from_config config)
      × (config.rag.call_timeout + (from_config config).read_block
          < (from_config config).call_timeout)
unfolding check_timing from_config socket_timeout_for Deadline.after
from_config-HasMargin config h =
    let c = config.rag.consumer in
    let timeout = config.rag.call_timeout in
    let (m, k) =
      no_problems (leb c.min_idle (c.job_timeout + c.watchdog_grace))
        (leb c.consumer_cleanup_idle c.job_timeout) _ _ h in
    let idle : c.job_timeout + c.watchdog_grace < c.min_idle = leb→gt _ _ m in
    let cleanup : c.job_timeout < c.consumer_cleanup_idle = leb→gt _ _ k in
    let call : 2 * second + 5 * second ≤ max timeout (2 * second + 5 * second) =
      le-max_right timeout (2 * second + 5 * second) in
    (
      record { reclaimed_later = λ started. omega (arith, idle); deleted_later = cleanup },
      omega (arith, call),
    )
