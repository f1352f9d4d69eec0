-- ===== src/Exec/Returns.antt =====
-- Effectful code that never raises.
use rag_poc.Prelude.{◌≡◌, refl, Bool, true, false, if◌then◌else◌, Result, ok, err}
use rag_poc.Failure.{Failure}
use rag_poc.Exec.{Exec, pure, gets, catch, handle, continue, ◌>>=◌}

pub record Returns {S : Type 0} {A : Type 0} (m : Exec S A) : Type 0 where
  pub at : (s : S) → (a : A) × ((m s).0 ≡ ok a)

module _ {S A : Type 0} where
  pub Returns-pure : (a : A) → Returns {S = S} (pure a)
  unfolding pure
  Returns-pure a = record { at = λ s. (a, refl) }

  pub Returns-gets : (f : S → A) → Returns (gets f)
  unfolding gets
  Returns-gets f = record { at = λ s. (f s, refl) }

  handled :
      (r : Result Failure A) (h : Failure → Exec S A) (s : S)
      → ((e : Failure) → Returns (h e))
      → (a : A) × ((handle r h s).0 ≡ ok a)
  handled (ok a) h s k = (a, refl)
  handled (err e) h s k = (k e).at s

  -- Whatever the tried code does, a handler that returns at every exception makes it return.
  pub Returns-catch :
      (m : Exec S A) (h : Failure → Exec S A)
      → ((e : Failure) → Returns (h e))
      → Returns (catch m h)
  unfolding catch
  Returns-catch m h k = record { at = λ s. let (r, s') = m s in handled r h s' k }

  pub Returns-if :
      (b : Bool) (m n : Exec S A) → Returns m → Returns n → Returns (if b then m else n)
  Returns-if true m n rm rn = rm
  Returns-if false m n rm rn = rn

module _ {S A B : Type 0} where
  continued :
      (r : Result Failure A) (f : A → Exec S B) (s : S)
      → (a : A) × (r ≡ ok a)
      → ((a : A) → Returns (f a))
      → (b : B) × ((continue r f s).0 ≡ ok b)
  continued (ok a) f s p k = (k a).at s
  continued (err e) f s (a, p) k = absurd (cc p)

  pub Returns-bind :
      (m : Exec S A) (f : A → Exec S B) → Returns m → ((a : A) → Returns (f a)) → Returns (m >>= f)
  unfolding ◌>>=◌
  Returns-bind m f rm rf = record { at = λ s. continued (m s).0 f (m s).1 (rm.at s) rf }

pub ruleset returns_rules = (Returns-pure, Returns-gets, Returns-catch, Returns-if, Returns-bind)
