-- ===== src/Consumer/Evidence/Claimed.antt =====
-- Reading new entries and processing a claimed one keep the consumer's invariant.
use rag_poc.Prelude.{
  ℕ, zero, suc, Text, str, ◌≡◌, refl, inl, inr, true, Option, none, some, List, [], ◌∷◌, ◌++◌, In,
  All-In, text_eq, text_eq_iff, ltb, ltb→lt, ltb→ge,
}
use rag_poc.Value.{Fields}
use rag_poc.Failure.{is_redis}
use rag_poc.Exec.{Exec, pure, ◌>>◌}
use rag_poc.Exec.Triple.{Triple-catch, Triple-if, Triple-raise}
use rag_poc.Event.Inbound.{IngestEvent}
use rag_poc.Consumer.{Env, Settings, State, Act, RawEntry, new, reclaimed, delivered, counted}
use rag_poc.Consumer.Entry.{decode, handle}
use rag_poc.Consumer.Recovery.{
  take_new, take_entries, take_streams, read_once, on_page, claim_page, first_pending, pending_info,
  process_pending, process_claimed,
}
use rag_poc.Consumer.Evidence.{Known, Learns, Keeps}
use rag_poc.Consumer.Evidence.Rules.{
  Keeps-call, Keeps-pure, Keeps-gets, Keeps-bind, Learns-bind, Learns-pure, step_then, note_then,
  note_bind, Learns-then,
}
use rag_poc.Consumer.Evidence.Entry.{Decoded, parse_entry-Learns}
use rag_poc.Consumer.Evidence.Handle.{handle-Keeps, report_poison-Keeps}

module _ (env : Env) (settings : Settings) (name : Text) where
  open env use {World}

  run_new :
      (facts : List Act) (id : Text) (fields : Option Fields) (event : Option IngestEvent)
      → In (delivered new id fields) facts
      → Decoded env settings name fields event
      → Keeps env settings name facts
          (elim event [ none ↦ pure tt | some e ↦ (do handle env settings id e; pure tt) ])
  run_new facts id fields none came d = Keeps-pure env settings name facts tt
  run_new facts id fields (some e) came d =
      Keeps-bind env settings name facts _ _
        (handle-Keeps env settings name facts id e
          (λ log k. record { fields = fields; decodes = d; came = inl (All-In _ _ facts k came) }))
        (λ _. Keeps-pure env settings name facts tt)

  take_new-Keeps :
      (facts : List Act) (entry : RawEntry)
      → Keeps env settings name facts (take_new env settings entry)
  unfolding take_new
  take_new-Keeps facts (id, fields) =
      note_bind env settings name facts (delivered new id fields) _ (λ log k. tt)
        (Learns-bind env settings name (delivered new id fields ∷ facts) (λ _. [])
          (Decoded env settings name fields) _ _
          (parse_entry-Learns env settings name _ new id fields (inl refl))
          (λ event d. run_new (delivered new id fields ∷ facts) id fields event (inl refl) d))

  take_entries-Keeps :
      (facts : List Act) (entries : List RawEntry)
      → Keeps env settings name facts (take_entries env settings entries)
  unfolding take_entries
  take_entries-Keeps facts [] = Keeps-pure env settings name facts tt
  take_entries-Keeps facts (entry ∷ rest) =
      Keeps-bind env settings name facts _ _ (take_new-Keeps facts entry)
        (λ _. take_entries-Keeps facts rest)

  take_streams-Keeps :
      (facts : List Act) (streams : List (Text × List RawEntry))
      → Keeps env settings name facts (take_streams env settings streams)
  unfolding take_streams
  take_streams-Keeps facts [] = Keeps-pure env settings name facts tt
  take_streams-Keeps facts ((stream, entries) ∷ rest) =
      Keeps-bind env settings name facts _ _ (take_entries-Keeps facts entries)
        (λ _. take_streams-Keeps facts rest)

  pub read_once-Keeps : (facts : List Act) → Keeps env settings name facts (read_once env settings)
  unfolding read_once
  read_once-Keeps facts =
      Keeps-bind env settings name facts _ _ (Keeps-call env settings name facts _)
        (λ response. take_streams-Keeps facts response)

  abbrev pub claimed_fact : Option RawEntry → List Act
  claimed_fact none = []
  claimed_fact (some (id, fields)) = delivered reclaimed id fields ∷ []

  on_page-Learns :
      (facts : List Act) (entry : Option RawEntry) (cursor : Text)
      (more : Exec (State World) (Option RawEntry))
      → Learns env settings name facts more claimed_fact (λ _. Unit)
      → Learns env settings name facts
          (on_page env settings entry cursor more)
          claimed_fact
          (λ _. Unit)
  unfolding on_page
  on_page-Learns facts (some (id, fields)) cursor more l =
      note_then env settings name facts claimed_fact (λ _. Unit) (delivered reclaimed id fields) _
        (λ log k. tt)
        (Learns-pure env settings name _ claimed_fact (λ _. Unit) (some (id, fields))
          (λ log k. (k.0, k)) tt)
  on_page-Learns facts none cursor more l =
      Triple-if (text_eq cursor (str "0-0")) _ _
        (λ _. Learns-pure env settings name facts claimed_fact (λ _. Unit) none (λ log k. k) tt)
        (λ _. l)

  pub claim_page-Learns :
      (facts : List Act) (pages : ℕ) (cursor : Text)
      → Learns env settings name facts
          (claim_page env settings pages cursor)
          claimed_fact
          (λ _. Unit)
  unfolding claim_page
  claim_page-Learns facts zero cursor =
      Learns-pure env settings name facts claimed_fact (λ _. Unit) none (λ log k. k) tt
  claim_page-Learns facts (suc pages) cursor =
      step_then env settings name facts claimed_fact (λ _. Unit) _ _
        (Keeps-call env settings name facts _)
        λ page.
          on_page-Learns facts _ page.next_cursor _ (claim_page-Learns facts pages page.next_cursor)

  abbrev counted_fact : Text → Option (ℕ × Text) → List Act
  counted_fact id none = []
  counted_fact id (some (n, owner)) = counted id n owner ∷ []

  first_pending-Learns :
      (facts : List Act) (id : Text) (rows : List (ℕ × Text))
      → Learns env settings name facts
          (first_pending env settings id rows)
          (counted_fact id)
          (λ _. Unit)
  unfolding first_pending
  first_pending-Learns facts id [] =
      Learns-pure env settings name facts (counted_fact id) (λ _. Unit) none (λ log k. k) tt
  first_pending-Learns facts id ((n, owner) ∷ rest) =
      note_then env settings name facts (counted_fact id) (λ _. Unit) (counted id n owner) _
        (λ log k. tt)
        (Learns-pure env settings name (counted id n owner ∷ facts) (counted_fact id) (λ _. Unit)
          (some (n, owner)) (λ log k. (k.0, k)) tt)

  pending_info-Learns :
      (facts : List Act) (id : Text)
      → Learns env settings name facts (pending_info env settings id) (counted_fact id) (λ _. Unit)
  unfolding pending_info
  pending_info-Learns facts id =
      step_then env settings name facts (counted_fact id) (λ _. Unit) _ _
        (Keeps-call env settings name facts _) (first_pending-Learns facts id)

  -- One claimed entry, with what XPENDING said of it.
  process_pending-Keeps :
      (facts : List Act) (id : Text) (fields : Option Fields) (event : IngestEvent)
      (info : Option (ℕ × Text))
      → In (delivered reclaimed id fields) facts
      → decode env fields ≡ some event
      → Keeps env settings name
          (counted_fact id info ++ facts)
          (process_pending env settings name id event info)
  unfolding process_pending
  process_pending-Keeps facts id fields event none came d = Keeps-pure env settings name facts true
  process_pending-Keeps facts id fields event (some (n, owner)) came d =
      Triple-if (text_eq owner name) _ _
        (λ mine.
          let own : owner ≡ name = (text_eq_iff owner name).0 mine in
          Keeps-bind env settings name _ _ _
            (Triple-if (ltb settings.poison_threshold n) _ _
              (λ over.
                report_poison-Keeps env settings name (counted id n owner ∷ facts) id event n
                  (λ log k. (
                    record {
                      source = reclaimed;
                      fields = fields;
                      came = All-In _ _ facts k.1 came;
                      decodes = d;
                    },
                    record {
                      deliveries = n;
                      count = rw (← own) k.0;
                      over = ltb→lt settings.poison_threshold n over;
                    },
                  )))
              (λ within.
                handle-Keeps env settings name (counted id n owner ∷ facts) id event (λ log k.
                  record {
                    fields = fields;
                    decodes = d;
                    came = inr (
                      All-In _ _ facts k.1 came,
                      (n, rw (← own) k.0, ltb→ge settings.poison_threshold n within),
                    );
                  })))
            (λ _. Keeps-gets env settings name _ _))
        (λ _. Keeps-pure env settings name _ true)

  abbrev info_fact : Text → Option (Option (ℕ × Text)) → List Act
  info_fact id none = []
  info_fact id (some info) = counted_fact id info

  process_info :
      (facts : List Act) (id : Text) (fields : Option Fields) (event : IngestEvent)
      (info : Option (Option (ℕ × Text)))
      → In (delivered reclaimed id fields) facts
      → decode env fields ≡ some event
      → Keeps env settings name
          (info_fact id info ++ facts)
          (elim info [ none ↦ pure true | some i ↦ process_pending env settings name id event i ])
  process_info facts id fields event none came d = Keeps-pure env settings name facts true
  process_info facts id fields event (some i) came d =
      process_pending-Keeps facts id fields event i came d

  counted_twice :
      (facts : List Act) (id : Text) (i : Option (ℕ × Text)) (log : List Act)
      → Known env settings name (counted_fact id i ++ facts) log
      → Known env settings name (counted_fact id i ++ (counted_fact id i ++ facts)) log
  counted_twice facts id none log k = k
  counted_twice facts id (some (n, owner)) log k = (k.0, k)

  pub process_claimed-Keeps :
      (facts : List Act) (id : Text) (fields : Option Fields)
      → In (delivered reclaimed id fields) facts
      → Keeps env settings name facts (process_claimed env settings name id fields)
  unfolding process_claimed
  process_claimed-Keeps facts id fields came =
      Learns-bind env settings name facts (λ _. []) (Decoded env settings name fields) _ _
        (parse_entry-Learns env settings name facts reclaimed id fields came)
        elim [
          | none ↦ λ _. Keeps-pure env settings name facts true
          | some event ↦ λ d.
              Learns-bind env settings name facts (info_fact id) (λ _. Unit) _ _
                (Triple-catch _ _
                  (Learns-then env settings name facts (counted_fact id) (λ _. Unit) (info_fact id)
                    (λ _. Unit) _ _ (pending_info-Learns facts id)
                    (λ i _.
                      Learns-pure env settings name (counted_fact id i ++ facts) (info_fact id)
                        (λ _. Unit) (some i) (λ log k. counted_twice facts id i log k) tt))
                  (λ x.
                    Triple-if (is_redis x) _ _
                      (λ _.
                        Learns-pure env settings name facts (info_fact id) (λ _. Unit) none
                          (λ log k. k) tt)
                      (λ _. Triple-raise x)))
                (λ info _. process_info facts id fields event info came d)
        ]
