-- ===== src/Exec/Inversion.antt =====
-- What a chain that returned has gone through.
use rag_poc.Prelude.{◌≡◌, refl, Result, ok, err}
use rag_poc.Failure.{Failure}
use rag_poc.Exec.{Exec, raise, catch, handle, continue, ◌>>=◌}

module _ {S A B : Type 0} where
  continue-eq-ok :
      (r : Result Failure A) (f : A → Exec S B) (s : S) (b : B)
      → (continue r f s).0 ≡ ok b
      → (a : A) × (r ≡ ok a) × ((f a s).0 ≡ ok b)
  continue-eq-ok (ok a) f s b h = (a, refl, h)
  continue-eq-ok (err e) f s b h = absurd (cc h)

  pub bind-eq-ok :
      (m : Exec S A) (f : A → Exec S B) (s : S) (b : B)
      → ((m >>= f) s).0 ≡ ok b
      → (a : A) × ((m s).0 ≡ ok a) × ((f a (m s).1).0 ≡ ok b)
  unfolding ◌>>=◌
  bind-eq-ok m f s b h = continue-eq-ok (m s).0 f (m s).1 b h

module _ {S A : Type 0} where
  handle-eq-ok :
      (r : Result Failure A) (g : Failure → Failure) (s : S) (a : A)
      → (handle r (λ e. raise (g e)) s).0 ≡ ok a
      → r ≡ ok a
  unfolding raise
  handle-eq-ok (ok b) g s a h = h
  handle-eq-ok (err e) g s a h = absurd (cc h)

  -- A handler that raises returns nothing.
  pub catch-raise-eq-ok :
      (m : Exec S A) (g : Failure → Failure) (s : S) (a : A)
      → (catch m (λ e. raise (g e)) s).0 ≡ ok a
      → (m s).0 ≡ ok a
  unfolding catch
  catch-raise-eq-ok m g s a h = handle-eq-ok (m s).0 g (m s).1 a h
