-- ===== src/Startup/Checks.antt =====
-- What follows where the checks of services/rag-service/src/rag/core/startup.py pass, and where a
-- configuration was loaded.
use rag_poc.Prelude.{
  ℕ, ◌+◌, ◌<◌, ◌≡◌, inl, inr, refl, Bool, true, false, ◌==◌, ==_iff, Bool-cases, Result, ok, err,
  arith,
}
use rag_poc.Value.{Fields}
use rag_poc.Failure.{Failure, dependency_unavailable}
use rag_poc.Deadline
use rag_poc.Config.{Config, from_config}
use rag_poc.Config.Build.{Unread, os_error, toml_error, other, load}
use rag_poc.Config.Timing.{HasMargin}
use rag_poc.Config.Ranges.{IsConfig}
use rag_poc.Config.Valid.{load-IsConfig}
use rag_poc.Embedder
use rag_poc.Embedder.{EmbedError, unavailable, model_not_available, dimension}
use rag_poc.Startup.{check_collection, check_embedding_dim}

pub check_collection-ok_inv :
    (r : Result Failure Bool) (u : Unit {0}) → check_collection r ≡ ok u → r ≡ ok true
unfolding check_collection
check_collection-ok_inv (ok true) u h = refl
check_collection-ok_inv (ok false) u h = absurd (cc h)
check_collection-ok_inv (err (dependency_unavailable d)) u h = absurd (cc h)
check_collection-ok_inv (err _) u h = absurd (cc h)

pub check_embedding_dim-ok_inv :
    (r : Result EmbedError ℕ) (expected : ℕ) (u : Unit {0})
    → check_embedding_dim r expected ≡ ok u
    → r ≡ ok expected
unfolding check_embedding_dim
check_embedding_dim-ok_inv (err (model_not_available m)) expected u h = absurd (cc h)
check_embedding_dim-ok_inv (err (unavailable d c)) expected u h = absurd (cc h)
check_embedding_dim-ok_inv (err (Embedder.raised e)) expected u h = absurd (cc h)
check_embedding_dim-ok_inv (ok actual) expected u h = elim (Bool-cases (actual == expected)) [
  | inl e ↦ cc ((==_iff actual expected).0 e)
  | inr e ↦ absurd (cc (rw e at h))
]

pub load-ok_inv :
    (d : Result Unread Fields) (config : Config) → load d ≡ ok config → IsConfig config
unfolding load
load-ok_inv (err os_error) config h = absurd (cc h)
load-ok_inv (err toml_error) config h = absurd (cc h)
load-ok_inv (err (other e)) config h = absurd (cc h)
load-ok_inv (ok raw) config h = (load-IsConfig raw config h).valid

pub idle_later :
    (config : Config)
    → HasMargin config.rag.consumer.watchdog_grace (from_config config)
    → config.rag.consumer.job_timeout + config.rag.consumer.watchdog_grace
      < config.rag.consumer.min_idle
unfolding from_config Deadline.after
idle_later config margins = omega (arith, margins.reclaimed_later 0)
