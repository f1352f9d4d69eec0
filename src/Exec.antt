-- ===== src/Exec.antt =====
-- Code that changes a state and may raise: what was changed before a raise stays changed.
pub mod Triple
pub mod Returns
pub mod Inversion
use rag_poc.Prelude.{Text, Bool, Option, none, some, if◌then◌else◌, Result, ok, err}
use rag_poc.Failure.{Failure}

abbrev pub Exec : Type 0 → Type 0 → Type 0
Exec S A = S → Result Failure A × S

module _ {S A : Type 0} where
  unfoldable pub pure : A → Exec S A
  pure a s = (ok a, s)

  unfoldable pub raise : Failure → Exec S A
  raise e s = (err e, s)

  unfoldable pub from_result : Result Failure A → Exec S A
  from_result r s = (r, s)

  unfoldable pub gets : (S → A) → Exec S A
  gets f s = (ok (f s), s)

  abbrev pub handle : Result Failure A → (Failure → Exec S A) → Exec S A
  handle (ok a) h s = (ok a, s)
  handle (err e) h s = h e s

  -- try: m except Exception as e: h e
  unfoldable pub catch : Exec S A → (Failure → Exec S A) → Exec S A
  catch m h s = let (r, s') = m s in handle r h s'

unfoldable pub modify : {S : Type 0} → (S → S) → Exec S (Unit {0})
modify f s = (ok tt, f s)

module _ {S A B : Type 0} where
  abbrev pub continue : Result Failure A → (A → Exec S B) → Exec S B
  continue (ok a) f s = f a s
  continue (err e) f s = (err e, s)

  infixl 5 ◌>>=◌ ◌>>◌
  unfoldable pub ◌>>=◌ : Exec S A → (A → Exec S B) → Exec S B
  unfolding pure raise from_result gets modify catch
  ◌>>=◌ m f s = let (r, s') = m s in continue r f s'

  abbrev pub ◌>>◌ : Exec S A → Exec S B → Exec S B
  m >> n = m >>= λ _. n
