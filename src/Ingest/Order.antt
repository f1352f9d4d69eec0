-- ===== src/Ingest/Order.antt =====
-- The order of the calls of services/rag-service/src/rag/ingest/service.py: a document is registered
-- only when all its points are stored, and its old points are deleted before.
use rag_poc.Prelude.{
  ℕ, zero, suc, Text, ◌≡◌, refl, List, [], ◌∷◌, length, All, none, some, Bool, true, false,
  if◌then◌else◌, Result, ok, err,
}
use rag_poc.Event.Inbound.{IngestEvent}
use rag_poc.Failure.{
  Failure, redis_error, permanent_error, transient_error, ingest_error, dependency_unavailable,
  invalid_event, invalid_query, query_unavailable, other_error,
}
use rag_poc.Exec.{Exec, pure, raise, from_result, modify, catch, handle, continue, ◌>>=◌}
use rag_poc.Exec.Triple.{Ends}
use rag_poc.Job.{Outcome}
use rag_poc.Deadline
use rag_poc.Deadline.{Deadline}
use rag_poc.Ingest.{
  Ports, IngestSettings, Point, IndexedDocument, State, Act, fetching, embedding, deleting, deleted,
  upserting, upserted, registering, registered, note, recorded, call, ask, make_points, check,
  split, embed_batches, embed, store, as_transient, finish, index_chunks, index_text, fetch,
  process, Code,
}
use rag_poc.Ingest.Points.{IsNumbered, make_points_lem}

module _ (V : Type 0) (event : IngestEvent) where
  -- An act that leaves the index and the registry as they are.
  abbrev pub IsRead : Act V → Type 0
  IsRead (fetching key) = Unit
  IsRead (embedding batch) = Unit
  IsRead _ = ⊥

  abbrev pub Reading : List (Act V) → Type 0
  Reading log = All IsRead log

  -- The list is the act a on top of a list with P.
  abbrev pub Then : Act V → (List (Act V) → Type 0) → List (Act V) → Type 0
  Then a P [] = ⊥
  Then a P (b ∷ log) = (b ≡ a) × P log

  abbrev pub Deleted : List (Act V) → Type 0
  Deleted = Then (deleted event.hash) (Then (deleting event.hash) Reading)

  abbrev pub Stored : List (Point V) → List (Act V) → Type 0
  Stored points = Then (upserted points) (Then (upserting points) Deleted)

  -- The row of the event's document, for the points stored.
  pub record IsRow (points : List (Point V)) (doc : IndexedDocument) : Type 0 where
    pub hash : doc.hash ≡ event.hash
    pub filename : doc.filename ≡ event.filename
    pub object_path : doc.object_path ≡ event.bucket_path
    pub chunk_count : doc.chunk_count ≡ length points

  abbrev pub Points : Type 0
  Points = (points : List (Point V)) × IsNumbered event.hash event.filename 0 points

  -- How far a run of the job came.
  pub data Progress (log : List (Act V)) : Type 0 where
    at_reading : Reading log → Progress log
    at_deleting : Then (deleting event.hash) Reading log → Progress log
    at_deleted : Deleted log → Progress log
    at_upserting : (p : Points) → Then (upserting p.0) Deleted log → Progress log
    at_stored : (p : Points) → Stored p.0 log → Progress log
    at_registering :
        (p : Points) (doc : IndexedDocument)
        → IsRow p.0 doc
        → Then (registering doc) (Stored p.0) log
        → Progress log

  -- What a job that returned has done.
  abbrev pub Finished : Outcome → List (Act V) → Type 0
  Finished (Outcome.indexed none) log = Reading log
  Finished (Outcome.indexed (some n)) log =
      (p : Points) × (doc : IndexedDocument) × (n ≡ length p.0)
      × IsRow p.0 doc
      × Then (registered doc) (Then (registering doc) (Stored p.0)) log
  Finished (Outcome.failed retryable reason detail) log = ⊥

module _ (ports : Ports) (event : IngestEvent) where
  open ports use {World, Vector}

  abbrev Log : Type 1
  Log = List (Act Vector) → Type 0

  -- From acts with P the code returns with Q, or raises after some progress.
  record Step {A : Type 0} (P : Log) (m : Code ports A) (Q : A → Log) : Type 0 where
    at :
        (s : State World Vector)
        → P s.log
        → Ends (λ t. Progress Vector event t.log) (λ a t. Q a t.log) (m s).0 (m s).1

  module _ {A : Type 0} {Q : A → Log} where
    continued :
        {B : Type 0} {R : B → Log} (r : Result Failure A) (f : A → Code ports B)
        (s : State World Vector)
        → Ends (λ t. Progress Vector event t.log) (λ a t. Q a t.log) r s
        → ((a : A) → Step (Q a) (f a) R)
        → Ends
            (λ t. Progress Vector event t.log)
            (λ b t. R b t.log)
            (continue r f s).0
            (continue r f s).1
    continued (ok a) f s h k = (k a).at s h
    continued (err e) f s h k = h

    handled :
        (r : Result Failure A) (h : Failure → Code ports A) (s : State World Vector)
        → Ends (λ t. Progress Vector event t.log) (λ a t. Q a t.log) r s
        → ((e : Failure) → Step (Progress Vector event) (h e) Q)
        → Ends
            (λ t. Progress Vector event t.log)
            (λ a t. Q a t.log)
            (handle r h s).0
            (handle r h s).1
    handled (ok a) h s p k = p
    handled (err e) h s p k = (k e).at s p

  module _ {A : Type 0} {P : Log} {Q : A → Log} where
    Step-pure : (a : A) → ((log : List (Act Vector)) → P log → Q a log) → Step P (pure a) Q
    unfolding pure
    Step-pure a f = record { at = λ s p. f s.log p }

    Step-raise :
        (e : Failure)
        → ((log : List (Act Vector)) → P log → Progress Vector event log)
        → Step P (raise e) Q
    unfolding raise
    Step-raise e f = record { at = λ s p. f s.log p }

    Step-if :
        (b : Bool) (m n : Code ports A) → Step P m Q → Step P n Q → Step P (if b then m else n) Q
    Step-if true m n sm sn = sm
    Step-if false m n sm sn = sn

    Step-bind :
        {B : Type 0} {R : B → Log} (m : Code ports A) (f : A → Code ports B)
        → Step P m Q
        → ((a : A) → Step (Q a) (f a) R)
        → Step P (m >>= f) R
    unfolding ◌>>=◌
    Step-bind m f sm sf = record { at = λ s p. continued (m s).0 f (m s).1 (sm.at s p) sf }

    Step-catch :
        (m : Code ports A) (h : Failure → Code ports A)
        → Step P m Q
        → ((e : Failure) → Step (Progress Vector event) (h e) Q)
        → Step P (catch m h) Q
    unfolding catch
    Step-catch m h sm sh = record { at = λ s p. handled (m s).0 h (m s).1 (sm.at s p) sh }

  module _ {P : Log}
      (progress : (log : List (Act Vector)) → P log → Progress Vector event log) where
    reply :
        {A : Type 0} (r : Result Failure A) (s : State World Vector)
        → P s.log
        → Ends (λ t. Progress Vector event t.log) (λ a t. P t.log) r s
    reply (ok a) s p = p
    reply (err e) s p = progress s.log p

    Step-call : {A : Type 0} (m : Exec World A) → Step P (call m) (λ _. P)
    unfolding call
    Step-call m = record { at = λ s p. reply (m s.world).0 _ p }

    Step-ask : {A : Type 0} (f : World → A × World) → Step P (ask f) (λ _. P)
    unfolding ask pure
    Step-ask f = record { at = λ s p. p }

    Step-note :
        {Q : Log} (a : Act Vector)
        → ((log : List (Act Vector)) → P log → Q (a ∷ log))
        → Step P (note a) (λ _. Q)
    unfolding note modify
    Step-note a f = record { at = λ s p. f s.log p }

    -- A call between its two acts: if it raises, the progress is the one with its first act.
    Step-recorded :
        {A : Type 0} {Q : Log} (before after : Act Vector) (m : Exec World A)
        → ((log : List (Act Vector)) → P log → Progress Vector event (before ∷ log))
        → ((log : List (Act Vector)) → P log → Q (after ∷ before ∷ log))
        → Step P (recorded before after m) (λ _. Q)
    unfolding recorded
    Step-recorded {A} {Q} before after m f g = record {
      at = λ s p. ended s.log (m s.world).0 (m s.world).1 p;
    }
      where
        ended :
            (log : List (Act Vector)) (r : Result Failure A) (w : World)
            → P log
            → Ends
                (λ (t : State World Vector). Progress Vector event t.log)
                (λ a (t : State World Vector). Q t.log)
                r
                (elim r [
                  | ok a ↦ record { world = w; log = after ∷ before ∷ log }
                  | err e ↦ record { world = w; log = before ∷ log }
                ])
        ended log (ok a) w p = g log p
        ended log (err e) w p = f log p

    Step-check : (deadline : Deadline) → Step P (check ports deadline) (λ _. P)
    unfolding check Deadline.check
    Step-check deadline =
        Step-bind _ _ (Step-ask _)
          λ now. Step-if _ _ _ (Step-raise _ progress) (Step-pure _ λ log p. p)

  abbrev Read : Log
  Read = Reading Vector event

  abbrev Rows : Points Vector event → Log
  Rows p = Stored Vector event p.0

  read : (log : List (Act Vector)) → Read log → Progress Vector event log
  read log p = at_reading p

  split-Step :
      (text ext : Text) (size overlap : ℕ)
      → Step Read (split ports text ext size overlap) (λ _. Read)
  unfolding split
  split-Step text ext size overlap =
      Step-bind _ _ (Step-call read _) λ parts. Step-pure _ λ log p. p

  embed_batches-Step :
      (deadline : Deadline) (batches : List (List Text))
      → Step Read (embed_batches ports deadline batches) (λ _. Read)
  unfolding embed_batches
  embed_batches-Step deadline [] = Step-pure _ λ log p. p
  embed_batches-Step deadline (batch ∷ rest) = Step-bind _ _ (Step-check read deadline) λ _.
      Step-bind _ _
        (Step-bind _ _ (Step-note read {Q = Read} (embedding batch) λ log p. (tt, p))
          λ _. Step-call read _)
        λ vectors. Step-bind _ _ (embed_batches-Step deadline rest) λ more. Step-pure _ λ log p. p

  embed-Step :
      (deadline : Deadline) (size : ℕ) (chunks : List Text)
      → Step Read (embed ports deadline size chunks) (λ _. Read)
  unfolding embed
  embed-Step deadline zero chunks = Step-raise _ read
  embed-Step deadline (suc size) chunks = embed_batches-Step deadline _

  abbrev NewPoints : List (Point Vector) → Log
  NewPoints points log = IsNumbered event.hash event.filename 0 points × Read log

  points-Step :
      (chunks : List Text) (vectors : List Vector)
      → Step Read (from_result (make_points event.hash event.filename 0 chunks vectors)) NewPoints
  unfolding from_result
  points-Step chunks vectors = record {
    at = λ s p. made (make_points event.hash event.filename 0 chunks vectors) s refl p;
  }
    where
      made :
          (r : Result Failure (List (Point Vector))) (s : State World Vector)
          → make_points event.hash event.filename 0 chunks vectors ≡ r
          → Read s.log
          → Ends (λ t. Progress Vector event t.log) (λ ps t. NewPoints ps t.log) r s
      made (ok ps) s e p =
          ((make_points_lem event.hash event.filename 0 chunks vectors ps e).numbered, p)
      made (err f) s e p = at_reading p

  -- The points that are stored, with the acts that stored them.
  abbrev AllStored : List (Point Vector) → Log
  AllStored points log =
      IsNumbered event.hash event.filename 0 points × Stored Vector event points log

  store-Step :
      (settings : IngestSettings) (deadline : Deadline) (chunks : List Text)
      → Step Read (store ports settings event deadline chunks) AllStored
  unfolding store
  store-Step settings deadline chunks =
      Step-bind _ _ (embed-Step deadline settings.embed_batch_size chunks) λ vectors.
        Step-bind _ _ (Step-check read deadline) λ _.
          Step-bind _ _ (points-Step chunks vectors) λ points.
            Step-bind _ _
              (Step-recorded (λ log p. at_reading p.1)
                {Q = λ log.
                  IsNumbered event.hash event.filename 0 points × Deleted Vector event log}
                (deleting event.hash) (deleted event.hash) _ (λ log p. at_deleting (refl, p.1))
                λ log p. (p.0, (refl, (refl, p.1))))
              λ _.
                Step-bind _ _
                  (Step-recorded (λ log p. at_deleted p.1) {Q = AllStored points} (upserting points)
                    (upserted points) _ (λ log p. at_upserting (points, p.0) (refl, p.1))
                    λ log p. (p.0, (refl, (refl, p.1))))
                  λ _. Step-pure _ λ log p. p

  as_transient-Step :
      (e : Failure)
      → Step (Progress Vector event) (as_transient ports {A = List (Point Vector)} e) AllStored
  as_transient-Step (dependency_unavailable d) = Step-raise _ λ log p. p
  as_transient-Step (redis_error k n) = Step-raise _ λ log p. p
  as_transient-Step (permanent_error r d) = Step-raise _ λ log p. p
  as_transient-Step (transient_error r d) = Step-raise _ λ log p. p
  as_transient-Step (ingest_error r d) = Step-raise _ λ log p. p
  as_transient-Step (invalid_event e) = Step-raise _ λ log p. p
  as_transient-Step (invalid_query t) = Step-raise _ λ log p. p
  as_transient-Step (query_unavailable t) = Step-raise _ λ log p. p
  as_transient-Step (other_error n) = Step-raise _ λ log p. p

  finish-Step :
      (points : List (Point Vector))
      → Step (AllStored points) (finish ports event points) (Finished Vector event)
  unfolding finish
  finish-Step points = Step-bind _ _ (Step-ask stored _) λ now.
      let doc : IndexedDocument = record {
        hash = event.hash;
        filename = event.filename;
        object_path = event.bucket_path;
        chunk_count = length points;
        indexed_at = now;
      } in
      let row : IsRow Vector event points doc = record {
        hash = refl;
        filename = refl;
        object_path = refl;
        chunk_count = refl;
      } in
      Step-bind _ _
        (Step-recorded stored
          {Q = λ log.
            IsNumbered event.hash event.filename 0 points
            × Then Vector event (registered doc)
                (Then Vector event (registering doc) (Stored Vector event points)) log}
          (registering doc) (registered doc) _
          (λ log p. at_registering (points, p.0) doc row (refl, p.1))
          λ log p. (p.0, (refl, (refl, p.1))))
        λ _. Step-pure _ λ log p. ((points, p.0), doc, refl, row, p.1)
    where
      stored : (log : List (Act Vector)) → AllStored points log → Progress Vector event log
      stored log p = at_stored (points, p.0) p.1

  index_chunks-Step :
      (settings : IngestSettings) (deadline : Deadline) (chunks : List Text)
      → Step Read (index_chunks ports settings event deadline chunks) (Finished Vector event)
  unfolding index_chunks
  index_chunks-Step settings deadline [] = Step-raise _ read
  index_chunks-Step settings deadline (c ∷ cs) =
      Step-bind _ _ (Step-catch _ _ (store-Step settings deadline (c ∷ cs)) as_transient-Step)
        finish-Step

  index_text-Step :
      (settings : IngestSettings) (deadline : Deadline) (text : Text)
      → Step Read (index_text ports settings event deadline text) (Finished Vector event)
  unfolding index_text
  index_text-Step settings deadline text =
      Step-if _ _ _ (Step-bind _ _ (split-Step _ _ _ _) (index_chunks-Step settings deadline))
        (Step-raise _ read)

  fetch-Step :
      (settings : IngestSettings) (deadline : Deadline)
      → Step Read (fetch ports settings event deadline) (Finished Vector event)
  unfolding fetch
  fetch-Step settings deadline = Step-bind _ _ (Step-call read _) λ parser.
      Step-if _ _ _ (Step-raise _ read) (
        Step-bind _ _ (Step-check read deadline) λ _.
          Step-bind _ _
            (Step-bind _ _ (Step-note read {Q = Read} (fetching event.bucket_path) λ log p. (tt, p))
              λ _. Step-call read _)
            λ content.
              Step-bind _ _ (Step-check read deadline)
                λ _. Step-bind _ _ (Step-call read _) (index_text-Step settings deadline))

  process-Step :
      (settings : IngestSettings) (deadline : Deadline)
      → Step Read (process ports settings event deadline) (Finished Vector event)
  unfolding process
  process-Step settings deadline =
      Step-bind _ _ (Step-call read _)
        λ known. Step-if _ _ _ (Step-pure _ λ log p. p) (fetch-Step settings deadline)

  -- From a run that has done nothing yet. If the job returns that it indexed n chunks, then its last
  -- acts are, in this order: it deleted the document's old points, stored n points of the document,
  -- numbered from 0, and registered the document with n chunks, each of these calls having succeeded; before these it only read. If it
  -- returns without a count, it only read. It returns no failure. If it raises, it stopped
  -- somewhere along that same order: so it never registers before all points are stored, and never
  -- stores before the old points are deleted.
  pub process_order :
      (settings : IngestSettings) (deadline : Deadline) (w : World)
      → let r = process ports settings event deadline (record { world = w; log = [] }) in
        Ends (λ t. Progress Vector event t.log) (λ o t. Finished Vector event o t.log) r.0 r.1
  process_order settings deadline w =
      (process-Step settings deadline).at (record { world = w; log = [] }) tt
