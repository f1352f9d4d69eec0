-- ===== src/Consumer/Evidence/Rules.antt =====
-- Rules for the consumer's invariant, one for each way to build its programs.
use rag_poc.Prelude.{
  ℕ, Text, ◌≡◌, refl, inl, Bool, true, false, Option, List, [], ◌∷◌, ◌++◌, if◌then◌else◌, Result,
  ok, err,
}
use rag_poc.Failure.{Failure}
use rag_poc.Exec.{Exec, pure, raise, catch, gets, ◌>>=◌}
use rag_poc.Exec.Triple.{
  Ends, Triple-pure, Triple-raise, Triple-bind, Triple-catch, Triple-if, Ends-weaken,
}
use rag_poc.Event.Outbound.{StatusEvent}
use rag_poc.Consumer.{Env, Settings, State, Act, note, set_held, call, ask}
use rag_poc.Consumer.Evidence.{
  Good, Evidence, HeldReports, HeldReports-cons, Known, Known-cons, Learns, Keeps,
}

module _ (env : Env) (settings : Settings) (name : Text) where
  open env use {World}

  abbrev Inv : List Act → State World → Type 0
  Inv = Good env settings name

  pub Good-drop : (more facts : List Act) (s : State World) → Inv (more ++ facts) s → Inv facts s
  Good-drop [] facts s g = g
  Good-drop (a ∷ more) facts s g =
      Good-drop more facts s
        (record { justified = g.justified; held_reports = g.held_reports; known = g.known.1 })

  abbrev Facts : List Act → List Act → Type 0
  Facts = Known env settings name

  Known-drop : (more facts log : List Act) → Facts (more ++ facts) log → Facts facts log
  Known-drop [] facts log k = k
  Known-drop (a ∷ more) facts log k = Known-drop more facts log k.1

  Known-thin :
      (first more facts log : List Act)
      → Facts (first ++ (more ++ facts)) log
      → Facts (first ++ facts) log
  Known-thin [] more facts log k = Known-drop more facts log k
  Known-thin (a ∷ first) more facts log k = (k.0, Known-thin first more facts log k.1)

  module _ (facts : List Act) where
    pub Keeps-note :
        (a : Act)
        → ((log : List Act) → Known env settings name facts log → Evidence env settings name a log)
        → Learns env settings name facts (note a) (λ _. a ∷ []) (λ _. Unit)
    unfolding note
    Keeps-note a justify = record {
      at = λ s g. (
        record {
          justified = (justify s.log g.known, g.justified);
          held_reports = HeldReports-cons env settings name a s.held s.log g.held_reports;
          known = (inl refl, Known-cons env settings name a facts s.log g.known);
        },
        tt,
      );
    }

    pub Keeps-set_held :
        (h : Option (Text × StatusEvent)) (n : ℕ)
        → ((log : List Act)
            → Known env settings name facts log
            → HeldReports env settings name h log)
        → Keeps env settings name facts (set_held h n)
    unfolding set_held
    Keeps-set_held h n ev = record {
      at = λ s g. record {
        justified = g.justified;
        held_reports = ev s.log g.known;
        known = g.known;
      };
    }

    moved :
        {A : Type 0} (r : Result Failure A) (s : State World)
        → Inv facts s
        → Ends (Inv facts) (λ a. Inv facts) r s
    moved (ok a) s g = g
    moved (err e) s g = g

    pub Keeps-call : {A : Type 0} (m : Exec World A) → Keeps env settings name facts (call m)
    unfolding call
    Keeps-call m = record {
      at = λ s g.
          let (r, w) = m s.world in
          moved r (record s { world = w })
            (record { justified = g.justified; held_reports = g.held_reports; known = g.known });
    }

    pub Keeps-ask : {A : Type 0} (f : World → A × World) → Keeps env settings name facts (ask f)
    unfolding ask
    Keeps-ask f = record {
      at =
          λ s g. record { justified = g.justified; held_reports = g.held_reports; known = g.known };
    }

    pub Keeps-pure : {A : Type 0} (a : A) → Keeps env settings name facts (pure a)
    Keeps-pure a = Triple-pure a (λ s g. g)

    pub Keeps-raise : {A : Type 0} (e : Failure) → Keeps env settings name facts (raise {A = A} e)
    Keeps-raise e = Triple-raise e

    pub Keeps-gets : {A : Type 0} (f : State World → A) → Keeps env settings name facts (gets f)
    unfolding gets
    Keeps-gets f = record { at = λ s g. g }

    pub Keeps-catch :
        {A : Type 0} (m : Exec (State World) A) (h : Failure → Exec (State World) A)
        → Keeps env settings name facts m
        → ((e : Failure) → Keeps env settings name facts (h e))
        → Keeps env settings name facts (catch m h)
    Keeps-catch m h = Triple-catch m h

    pub Keeps-if :
        {A : Type 0} (b : Bool) (m n : Exec (State World) A)
        → (b ≡ true → Keeps env settings name facts m)
        → (b ≡ false → Keeps env settings name facts n)
        → Keeps env settings name facts (if b then m else n)
    Keeps-if b m n = Triple-if b m n

    pub Keeps-bind :
        {A B : Type 0} (m : Exec (State World) A) (f : A → Exec (State World) B)
        → Keeps env settings name facts m
        → ((a : A) → Keeps env settings name facts (f a))
        → Keeps env settings name facts (m >>= f)
    Keeps-bind m f km kf = Triple-bind m f km (λ a s g. g) kf

    -- The rest of a program may use what the first part learned.
    pub Learns-bind :
        {A B : Type 0} (more : A → List Act) (F : A → Type 0) (m : Exec (State World) A)
        (f : A → Exec (State World) B)
        → Learns env settings name facts m more F
        → ((a : A) → F a → Keeps env settings name (more a ++ facts) (f a))
        → Keeps env settings name facts (m >>= f)
    Learns-bind more F m f lm kf =
        Triple-bind m f lm (λ a s g. Good-drop (more a) facts s g.0)
          (λ a. record {
            at = λ s g.
                Ends-weaken (f a s).0 (f a s).1 (λ t h. (h, g.1))
                  (λ b t h. Good-drop (more a) facts t h) ((kf a g.1).at s g.0);
          })

    -- The same where the rest learns too.
    pub Learns-then :
        {A B : Type 0} (more : A → List Act) (F : A → Type 0) (more' : B → List Act)
        (F' : B → Type 0) (m : Exec (State World) A) (f : A → Exec (State World) B)
        → Learns env settings name facts m more F
        → ((a : A) → F a → Learns env settings name (more a ++ facts) (f a) more' F')
        → Learns env settings name facts (m >>= f) more' F'
    Learns-then more F more' F' m f lm lf =
        Triple-bind m f lm (λ a s g. Good-drop (more a) facts s g.0)
          (λ a. record {
            at = λ s g.
                Ends-weaken (f a s).0 (f a s).1 (λ t h. (h, g.1))
                  (λ b t h. (
                    record {
                      justified = h.0.justified;
                      held_reports = h.0.held_reports;
                      known = Known-thin (more' b) (more a) facts t.log h.0.known;
                    },
                    h.1,
                  ))
                  ((lf a g.1).at s g.0);
          })

    -- A program that keeps the invariant learns nothing.
    pub Learns-nothing :
        {A : Type 0} (m : Exec (State World) A)
        → Keeps env settings name facts m
        → Learns env settings name facts m (λ _. []) (λ _. Unit)
    Learns-nothing m k = record {
      at = λ s g. Ends-weaken (m s).0 (m s).1 (λ t h. h) (λ a t h. (h, tt)) (k.at s g);
    }

    pub Learns-pure :
        {A : Type 0} (more : A → List Act) (F : A → Type 0) (a : A)
        → ((log : List Act)
            → Known env settings name facts log
            → Known env settings name (more a ++ facts) log)
        → F a
        → Learns env settings name facts (pure a) more F
    Learns-pure more F a keep fact = Triple-pure a (λ s g. (
      record { justified = g.justified; held_reports = g.held_reports; known = keep s.log g.known },
      fact,
    ))

    -- A step that learns nothing, and an act, in front of a program that learns.
    pub step_then :
        {A B : Type 0} (more : B → List Act) (F : B → Type 0) (m : Exec (State World) A)
        (f : A → Exec (State World) B)
        → Keeps env settings name facts m
        → ((a : A) → Learns env settings name facts (f a) more F)
        → Learns env settings name facts (m >>= f) more F
    step_then more F m f km lf =
        Learns-then (λ _. []) (λ _. Unit) more F m f (Learns-nothing m km) (λ a _. lf a)

    pub note_then :
        {B : Type 0} (more : B → List Act) (F : B → Type 0) (a : Act)
        (f : Unit {0} → Exec (State World) B)
        → ((log : List Act) → Known env settings name facts log → Evidence env settings name a log)
        → Learns env settings name (a ∷ facts) (f tt) more F
        → Learns env settings name facts (note a >>= f) more F
    note_then more F a f justify lf =
        Learns-then (λ _. a ∷ []) (λ _. Unit) more F (note a) f (Keeps-note a justify) (λ _ _. lf)

    -- An act in front of a program that keeps the invariant.
    pub note_bind :
        {B : Type 0} (a : Act) (f : Unit {0} → Exec (State World) B)
        → ((log : List Act) → Known env settings name facts log → Evidence env settings name a log)
        → Keeps env settings name (a ∷ facts) (f tt)
        → Keeps env settings name facts (note a >>= f)
    note_bind a f justify kf =
        Learns-bind (λ _. a ∷ []) (λ _. Unit) (note a) f (Keeps-note a justify) (λ _ _. kf)

  pub ruleset consumer_rules = (
    Keeps-call, Keeps-ask, Keeps-pure, Keeps-raise, Keeps-gets, Keeps-catch, Keeps-if, Keeps-bind,
  )
