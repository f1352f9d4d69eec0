-- ===== src/Exec/Triple.antt =====
-- Hoare triples of effectful code: from a state with P a normal end gives Q, and a raise gives P.
use rag_poc.Prelude.{◌≡◌, refl, Bool, true, false, if◌then◌else◌, Result, ok, err}
use rag_poc.Failure.{Failure}
use rag_poc.Exec.{Exec, pure, raise, catch, handle, continue, ◌>>=◌}

module _ {S A : Type 0} where
  abbrev pub Ends : (S → Type 0) → (A → S → Type 0) → Result Failure A → S → Type 0
  Ends P Q (ok a) s = Q a s
  Ends P Q (err e) s = P s

  pub record Triple (P : S → Type 0) (m : Exec S A) (Q : A → S → Type 0) : Type 0 where
    pub at : (s : S) → P s → Ends P Q (m s).0 (m s).1

module _ {S A : Type 0} {P : S → Type 0} {Q : A → S → Type 0} where
  pub Triple-pure : (a : A) → ((s : S) → P s → Q a s) → Triple P (pure a) Q
  unfolding pure
  Triple-pure a h = record { at = h }

  pub Triple-raise : (e : Failure) → Triple P (raise e) Q
  unfolding raise
  Triple-raise e = record { at = λ s p. p }

  handle-Ends :
      (r : Result Failure A) (h : Failure → Exec S A) (s : S)
      → Ends P Q r s
      → ((e : Failure) → Triple P (h e) Q)
      → Ends P Q (handle r h s).0 (handle r h s).1
  handle-Ends (ok a) h s p k = p
  handle-Ends (err e) h s p k = (k e).at s p

  pub Triple-catch :
      (m : Exec S A) (h : Failure → Exec S A)
      → Triple P m Q
      → ((e : Failure) → Triple P (h e) Q)
      → Triple P (catch m h) Q
  unfolding catch
  Triple-catch m h tm th = record {
    at = λ s p. let (r, s') = m s in handle-Ends r h s' (tm.at s p) th;
  }

  pub Triple-if :
      (b : Bool) (m n : Exec S A)
      → (b ≡ true → Triple P m Q)
      → (b ≡ false → Triple P n Q)
      → Triple P (if b then m else n) Q
  Triple-if true m n tm tn = tm refl
  Triple-if false m n tm tn = tn refl

  pub Ends-weaken :
      {P' : S → Type 0} {Q' : A → S → Type 0} (r : Result Failure A) (s : S)
      → ((s : S) → P' s → P s)
      → ((a : A) (s : S) → Q' a s → Q a s)
      → Ends P' Q' r s
      → Ends P Q r s
  Ends-weaken (ok a) s f g h = g a s h
  Ends-weaken (err e) s f g h = f s h

module _ {S A : Type 0} {P P' : S → Type 0} {Q Q' : A → S → Type 0} where
  -- Consequence. The two raise conditions are equivalent.
  pub Triple-weaken :
      (m : Exec S A)
      → Triple P' m Q'
      → ((s : S) → P s → P' s)
      → ((s : S) → P' s → P s)
      → ((a : A) (s : S) → Q' a s → Q a s)
      → Triple P m Q
  Triple-weaken m t f f' g = record {
    at = λ s p. Ends-weaken (m s).0 (m s).1 f' g (t.at s (f s p));
  }

module _ {S A B : Type 0} {P : S → Type 0} {Q : A → S → Type 0} {R : B → S → Type 0} where
  continue-Ends :
      (r : Result Failure A) (f : A → Exec S B) (s : S)
      → Ends P Q r s
      → ((a : A) → Triple (Q a) (f a) R)
      → ((a : A) (s : S) → Q a s → P s)
      → Ends P R (continue r f s).0 (continue r f s).1
  continue-Ends (err e) f s p k back = p
  continue-Ends (ok a) f s p k back =
      Ends-weaken (f a s).0 (f a s).1 (back a) (λ b s' h. h) ((k a).at s p)

  -- What held before the first part still holds after it, whatever it returned.
  pub Triple-bind :
      (m : Exec S A) (f : A → Exec S B)
      → Triple P m Q
      → ((a : A) (s : S) → Q a s → P s)
      → ((a : A) → Triple (Q a) (f a) R)
      → Triple P (m >>= f) R
  unfolding ◌>>=◌
  Triple-bind m f tm back tf = record {
    at = λ s p. continue-Ends (m s).0 f (m s).1 (tm.at s p) tf back;
  }
