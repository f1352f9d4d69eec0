-- ===== src/Registry/Refinement.antt =====
-- The registry of services/rag-service/src/rag/adapters/sqlite_index_registry.py refines a list of rows
-- in which the first row of a hash stays.
use rag_poc.Prelude.{
  ℕ, Text, ◌≡◌, inl, inr, refl, sym, subst, Bool, false, Bool-cases, List, [], ◌∷◌, ◌++◌, length,
  text_eq, text_eq_iff, Result, ok, err,
}
use rag_poc.Value.{Moment, naive, unconvertible, utc}
use rag_poc.Failure.{Failure}
use rag_poc.Exec.{Exec, raise}
use rag_poc.Ingest.{IndexedDocument}
use rag_poc.Registry
use rag_poc.Registry.{Row, Sqlite, row_of, insert_at, with_manager, after_exit}
use rag_poc.Registry.Contract.{Does, IsTransactional, Ended, has_hash, put}
use rag_poc.Registry.Transaction.{with_manager-Ended}

pub data Operation : Type 0 where
  exists : Text → Operation
  register : IndexedDocument → Moment → Operation
  count clear : Operation

pub data Answer : Type 0 where
  found : Bool → Answer
  counted : ℕ → Answer
  finished : Answer

abbrev answer_with : {A : Type 0} → (A → Answer) → Result Failure A → Result Failure Answer
answer_with f (ok a) = ok (f a)
answer_with f (err e) = err e

-- The rows all have different hashes.
abbrev pub Distinct : List Row → Type 0
Distinct [] = Unit
Distinct (r ∷ rs) = (has_hash r.hash rs ≡ false) × Distinct rs

has_hash-append-false :
    (hash : Text) (row : Row) (rs : List Row)
    → has_hash hash rs ≡ false
    → text_eq row.hash hash ≡ false
    → has_hash hash (rs ++ (row ∷ [])) ≡ false
has_hash-append-false hash row [] h e = rw e refl
has_hash-append-false hash row (r ∷ rs) h e = elim (Bool-cases (text_eq r.hash hash)) [
  | inl same ↦ absurd (cc (rw same at h))
  | inr other ↦ rw other (has_hash-append-false hash row rs (rw other at h) e)
]

text_eq-false_sym : (s t : Text) → text_eq s t ≡ false → text_eq t s ≡ false
text_eq-false_sym s t h = elim (Bool-cases (text_eq t s)) [
  | inl same ↦ absurd (cc (h, (text_eq_iff s t).1 (sym ((text_eq_iff t s).0 same))))
  | inr other ↦ other
]

append-Distinct :
    (row : Row) (rs : List Row)
    → has_hash row.hash rs ≡ false
    → Distinct rs
    → Distinct (rs ++ (row ∷ []))
append-Distinct row [] h d = (refl, tt)
append-Distinct row (r ∷ rs) h (new, d) = elim (Bool-cases (text_eq r.hash row.hash)) [
  | inl same ↦ absurd (cc (rw same at h))
  | inr other ↦ (
    has_hash-append-false r.hash row rs new (text_eq-false_sym r.hash row.hash other),
    append-Distinct row rs (rw other at h) d,
  )
]

put-Distinct : (row : Row) (rs : List Row) → Distinct rs → Distinct (put row rs)
put-Distinct row rs d = elim (Bool-cases (has_hash row.hash rs)) [
  | inl there ↦ rw there d
  | inr new ↦ rw new (append-Distinct row rs new d)
]

module _ (sqlite : Sqlite) where
  open sqlite use {World}

  -- One operation of the code.
  abbrev pub perform : Operation → Exec World Answer
  perform (exists hash) w = let (r, w') = Registry.exists sqlite hash w in (answer_with found r, w')
  perform (register document at) w =
      let (r, w') = Registry.register sqlite document at w in (answer_with (λ u. finished) r, w')
  perform count w = let (r, w') = Registry.count sqlite w in (answer_with counted r, w')
  perform clear w = let (r, w') = Registry.clear sqlite w in (answer_with (λ u. finished) r, w')

  -- What it answers and what it changes, on the list of rows.
  abbrev pub answer : Operation → List Row → Answer
  answer (exists hash) rs = found (has_hash hash rs)
  answer (register document at) rs = finished
  answer count rs = counted (length rs)
  answer clear rs = finished

  abbrev pub change : Operation → List Row → List Row
  change (register document (utc t)) rs =
      put
        (row_of sqlite document.hash document.filename document.object_path document.chunk_count t)
        rs
  change clear rs = []
  change _ rs = rs

  module _ (rows seen : World → List Row) (law : IsTransactional sqlite rows seen) where
    answered :
        {A : Type 0} (f : A → Answer) (of : List Row → A) (to : List Row → List Row)
        (rs rs' : List Row) (r : Result Failure A)
        → Ended of to rs r rs'
        → Ended (λ s. f (of s)) to rs (answer_with f r) rs'
    answered f of to rs rs' (ok a) (is_answer, changed) = (cc is_answer, changed)
    answered f of to rs rs' (err e) h = h

    raise-Does : (e : Failure) → Does rows seen (raise e) (λ rs. tt) (λ rs. rs)
    unfolding raise
    raise-Does e = record {
      kept = λ w. refl;
      answered = λ w a h. absurd (cc h);
      changed = λ w a h. absurd (cc h);
    }

    managed :
        {A : Type 0} (f : A → Answer) (of : List Row → A) (to : List Row → List Row)
        (body : Exec World A) (w : World)
        → Does rows seen body of to
        → let (r, w') = with_manager sqlite body w in
          Ended (λ s. f (of s)) to (rows w) (answer_with f r) (rows w')
    managed f of to body w does =
        let (r, w') = with_manager sqlite body w in
        answered f of to (rows w) (rows w') r
          (with_manager-Ended sqlite rows seen law (rows w) of to body w does refl)

    perform-Ended :
        (o : Operation) (w : World)
        → let (r, w') = perform o w in Ended (answer o) (change o) (rows w) r (rows w')
    unfolding Registry.exists Registry.register Registry.count Registry.clear raise
    perform-Ended (exists hash) w =
        managed found (has_hash hash) (λ rs. rs) _ w (law.select_hash hash)
    perform-Ended count w = managed counted length (λ rs. rs) _ w law.select_count
    perform-Ended clear w = managed (λ u. finished) (λ rs. tt) (λ rs. []) _ w law.delete_all
    perform-Ended (register document naive) w = inl refl
    perform-Ended (register document (utc t)) w =
        managed (λ u. finished) (λ rs. tt) (change (register document (utc t))) _ w
          (law.insert_or_nothing _)
    perform-Ended (register document unconvertible) w =
        managed (λ u. finished) (λ rs. tt) (λ rs. rs) _ w (raise-Does _)

    -- A run of operations, each as the list of rows says.
    abbrev pub Follows : List Operation → World → Type 0
    Follows [] w = Unit
    Follows (o ∷ os) w =
        let (r, w') = perform o w in
        Ended (answer o) (change o) (rows w) r (rows w') × Distinct (rows w') × Follows os w'

    change-Distinct : (o : Operation) (rs : List Row) → Distinct rs → Distinct (change o rs)
    change-Distinct (exists hash) rs d = d
    change-Distinct (register document naive) rs d = d
    change-Distinct (register document unconvertible) rs d = d
    change-Distinct (register document (utc t)) rs d = put-Distinct _ rs d
    change-Distinct count rs d = d
    change-Distinct clear rs d = tt

    Ended-Distinct :
        (o : Operation) (r : Result Failure Answer) (before after : List Row)
        → Ended (answer o) (change o) before r after
        → Distinct before
        → Distinct after
    Ended-Distinct o (ok a) before after (_, changed) d =
        subst Distinct (sym changed) (change-Distinct o before d)
    Ended-Distinct o (err e) before after (inl same) d = subst Distinct (sym same) d
    Ended-Distinct o (err e) before after (inr changed) d =
        subst Distinct (sym changed) (change-Distinct o before d)

    -- Every run of operations on the registry follows the list of rows: an operation that returns
    -- answers from the rows before it and changes them as the list says, where the first row of a
    -- hash stays; one that raises has changed them so or not at all. The rows keep different hashes.
    pub refines : (os : List Operation) (w : World) → Distinct (rows w) → Follows os w
    refines [] w d = tt
    refines (o ∷ os) w d =
        let (r, w') = perform o w in
        let ended = perform-Ended o w in
        let d' = Ended-Distinct o r (rows w) (rows w') ended d in (ended, d', refines os w' d')
