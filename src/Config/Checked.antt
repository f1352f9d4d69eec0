-- ===== src/Config/Checked.antt =====
-- Readers of services/rag-service/src/rag/core/config_reader.py that find no problem: what their
-- results then satisfy.
use rag_poc.Prelude.{
  Text, ◌≡◌, refl, Bool, true, false, List, [], ◌∷◌, ◌++◌, map, mem_text, Text, Result, ok, err,
  if◌then◌else◌,
}
use rag_poc.Failure.{Failure}
use rag_poc.Exec.{pure, raise, gets, modify, continue, ◌>>=◌, ◌>>◌}
use rag_poc.Config.{RagConsumerConfig, TimingProblem, check_timing}
use rag_poc.Config.Reader.{Read, Reader, wrong_timing, Complaint, complaints, fail, keep_name}
use rag_poc.Config.Build.{any_timing_key, check_consumer}

-- The name of a bad duration is kept only beside its problem.
abbrev pub Noted : Reader → Type 0
Noted s = s.problems ≡ [] → s.invalid_durations ≡ []

-- A step that returns leaves the reader noted; with no problem recorded at its end, it had none at
-- its start, and its result has P.
abbrev pub Holds : {A : Type 0} → (A → Type 0) → Result Failure A → Reader → Reader → Type 0
Holds P (ok a) s t = Noted t × (t.problems ≡ [] → (s.problems ≡ []) × P a)
Holds P (err e) s t = Unit

pub record Checked {A : Type 0} (P : A → Type 0) (m : Read A) : Type 0 where
  pub at : (s : Reader) → Noted s → Holds P (m s).0 s (m s).1

append-nil_inv : {A : Type 0} (xs ys : List A) → (xs ++ ys) ≡ [] → (xs ≡ []) × (ys ≡ [])
append-nil_inv [] ys h = (refl, h)
append-nil_inv (x ∷ xs) ys h = absurd (cc h)

module _ {A : Type 0} {P : A → Type 0} where
  pub Checked-pure : (a : A) → P a → Checked P (pure a)
  unfolding pure
  Checked-pure a p = record { at = λ s noted. (noted, λ h. (h, p)) }

  pub Checked-raise : (e : Failure) → Checked P (raise e)
  unfolding raise
  Checked-raise e = record { at = λ s noted. tt }

  pub Checked-if :
      (b : Bool) (m n : Read A)
      → (b ≡ true → Checked P m)
      → (b ≡ false → Checked P n)
      → Checked P (if b then m else n)
  Checked-if true m n cm cn = cm refl
  Checked-if false m n cm cn = cn refl

module _ {A B : Type 0} {P : A → Type 0} {Q : B → Type 0} where
  continued :
      (r : Result Failure A) (f : A → Read B) (s t : Reader)
      → Holds P r s t
      → ((a : A) → Checked (λ b. P a → Q b) (f a))
      → Holds Q (continue r f t).0 s (continue r f t).1
  continued (err e) f s t h k = tt
  continued (ok a) f s t (noted, h) k = then_b ((f a t).0) (f a t).1 ((k a).at t noted)
    where
      then_b : (r : Result Failure B) (u : Reader) → Holds (λ b. P a → Q b) r t u → Holds Q r s u
      then_b (err e) u g = tt
      then_b (ok b) u (noted_after, g) = (
        noted_after,
        λ none_left. let (mid, q) = g none_left in let (first, p) = h mid in (first, q p),
      )

  pub Checked-bind :
      (m : Read A) (f : A → Read B)
      → Checked P m
      → ((a : A) → Checked (λ b. P a → Q b) (f a))
      → Checked Q (m >>= f)
  unfolding ◌>>=◌
  Checked-bind m f cm cf = record {
    at = λ s noted. continued (m s).0 f s (m s).1 (cm.at s noted) cf;
  }

complaints-nil_inv :
    (path : List Text) (key : Text) (cs : List Complaint) → complaints path key cs ≡ [] → cs ≡ []
complaints-nil_inv path key [] h = refl
complaints-nil_inv path key (c ∷ cs) h = absurd (cc h)

pub Checked-fail :
    (path : List Text) (key : Text) (cs : List Complaint)
    → Checked (λ _. cs ≡ []) (fail path key cs)
unfolding fail modify
Checked-fail path key cs = record {
  at = λ s noted. (
    λ h. noted (append-nil_inv s.problems (complaints path key cs) h).0,
    λ h.
        let (first, none_new) = append-nil_inv s.problems (complaints path key cs) h in
        (first, complaints-nil_inv path key cs none_new),
  );
}

-- A complaint beside which the name of its key is kept.
pub Checked-keep_name :
    {A : Type 0} {P : A → Type 0} (path : List Text) (key name : Text) (cs : List Complaint) (a : A)
    → (cs ≡ [] → P a)
    → Checked P (do fail path key cs; keep_name name cs; pure a)
unfolding fail keep_name modify pure ◌>>=◌
Checked-keep_name path key name [] a p = record {
  at = λ s noted. (
    λ h. noted (append-nil_inv s.problems [] h).0,
    λ h. ((append-nil_inv s.problems [] h).0, p refl),
  );
}
Checked-keep_name path key name (c ∷ cs) a p = record {
  at = λ s noted. (
    λ h. absurd (cc (append-nil_inv s.problems (complaints path key (c ∷ cs)) h).1),
    λ h. absurd (cc (append-nil_inv s.problems (complaints path key (c ∷ cs)) h).1),
  );
}

timing-nil_inv : (ps : List TimingProblem) → map wrong_timing ps ≡ [] → ps ≡ []
timing-nil_inv [] h = refl
timing-nil_inv (p ∷ ps) h = absurd (cc h)

no_timing_key : any_timing_key [] ≡ false
unfolding mem_text
no_timing_key = refl

-- The timing rules are skipped only where a name is kept.
pub check_consumer-Checked :
    (consumer : RagConsumerConfig)
    → Checked (λ _. check_timing consumer ≡ []) (check_consumer consumer)
unfolding check_consumer gets modify pure ◌>>=◌
check_consumer-Checked consumer = record {
  at = λ s noted. checked s noted (any_timing_key s.invalid_durations) refl;
}
  where
    checked :
        (s : Reader)
        → Noted s
        → (b : Bool) → any_timing_key s.invalid_durations ≡ b
        → let m : Read (Unit {0}) =
            if b
            then pure tt
            else modify (λ r. record r {
              problems = r.problems ++ map wrong_timing (check_timing consumer);
            }) in
          Holds (λ _. check_timing consumer ≡ []) (m s).0 s (m s).1
    checked s noted true e = (noted, λ h. absurd (cc (e, noted h, no_timing_key)))
    checked s noted false e = (
      λ h. noted (append-nil_inv s.problems _ h).0,
      λ h.
          let (first, none_new) =
            append-nil_inv s.problems (map wrong_timing (check_timing consumer)) h in
          (first, timing-nil_inv _ none_new),
    )
