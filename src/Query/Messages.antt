-- ===== src/Query/Messages.antt =====
-- The messages of services/rag-service/src/rag/query/service.py, and the queries that are refused.
use rag_poc.Prelude.{
  ◌<◌, Text, ◌≡◌, refl, subst, ◌⊎◌, inl, inr, List, [], ◌∷◌, map, All, none, false, Bool-cases,
  has_content, ltb, ltb→ge, length, arith, Result, ok, err,
}
use rag_poc.Exec.{raise, continue, ◌>>=◌}
use rag_poc.Failure.{Failure, invalid_query}
use rag_poc.Query.{
  Hit, Message, Stream, Ports, QuerySettings, validate, retrieve, answer, ask_stream, ask,
  sources_message, answer_message, no_relevant_answer,
}

module _ (ports : Ports) (settings : QuerySettings ports.Score) where
  open ports use {World, Score}

  abbrev HasNoSources : Message Score → Type 0
  HasNoSources m = m.sources ≡ []

  -- The messages of an answer from these hits, begun in the world w and ended in w'.
  pub record IsReply (hits : List (Hit Score)) (s : Stream (Message Score)) (w w' : World)
      : Type 0 where
    pub rest : List (Message Score)
    pub first : s.items ≡ sources_message hits ∷ rest
    pub no_more_sources : All HasNoSources rest
    pub nothing_found :
        hits ≡ [] → (rest ≡ answer_message no_relevant_answer ∷ []) × (s.end ≡ ok tt) × (w' ≡ w)

  deltas-HasNoSources : (ts : List Text) → All HasNoSources (map answer_message ts)
  deltas-HasNoSources [] = tt
  deltas-HasNoSources (t ∷ ts) = (refl, deltas-HasNoSources ts)

  answer-IsReply :
      (query : Text) (hits : List (Hit Score)) (w : World)
      → let r = answer ports settings query hits w in IsReply hits r.0 w r.1
  unfolding answer
  answer-IsReply query [] w = record {
    rest = _;
    first = refl;
    no_more_sources = (refl, tt);
    nothing_found = λ e. (refl, refl, refl);
  }
  answer-IsReply query (h ∷ hs) w = record {
    rest = _;
    first = refl;
    no_more_sources = deltas-HasNoSources _;
    nothing_found = λ e. absurd (cc e);
  }

  replied :
      (query : Text) (r : Result Failure (List (Hit Score))) (w : World)
      (s : Stream (Message Score))
      → let t =
          continue r (λ hits w. let (s, w') = answer ports settings query hits w in (ok s, w')) w in
        t.0 ≡ ok s → (hits : List (Hit Score)) × (r ≡ ok hits) × IsReply hits s w t.1
  replied query (err e) w s h = absurd (cc h)
  replied query (ok hits) w s h =
      let same : (answer ports settings query hits w).0 ≡ s = cc h in
      (
        hits,
        refl,
        subst (λ s. IsReply hits s w (answer ports settings query hits w).1) same
            (answer-IsReply query hits w),
      )

  -- If ask_stream returns, it retrieved hits first; its first message carries exactly these and an
  -- empty answer, and no later message carries sources. Without hits there is one more message, the
  -- fixed answer, the stream ends without an error, and the LLM was not called: the world is as
  -- retrieve left it.
  pub ask_stream-IsReply :
      (query : Text) (document_ids : List Text) (w : World) (s : Stream (Message Score))
      → (ask_stream ports settings query document_ids w).0 ≡ ok s
      → let found = retrieve ports settings query document_ids none w in
        (hits : List (Hit Score)) × (found.0 ≡ ok hits)
        × IsReply hits s found.1 (ask_stream ports settings query document_ids w).1
  unfolding ask_stream ◌>>=◌
  ask_stream-IsReply query document_ids w s h =
      let found = retrieve ports settings query document_ids none w in
      replied query found.0 found.1 s h

  abbrev pub IsRefused : Text → List Text → Type 0
  IsRefused query document_ids =
      (has_content query ≡ false)
      ⊎ (settings.max_query_chars < length query)
      ⊎ (settings.max_document_ids < length document_ids)

  validate_refused :
      (query : Text) (document_ids : List Text) (w : World)
      → IsRefused query document_ids
      → (t : Text) × (validate ports settings query document_ids w ≡ (err (invalid_query t), w))
  unfolding validate raise
  validate_refused query document_ids w h = elim (Bool-cases (has_content query)) [
    | inr blank ↦ rw blank (_, refl)
    | inl content ↦ elim (Bool-cases (ltb settings.max_query_chars (length query))) [
      | inl long ↦ rw (content, long) (_, refl)
      | inr short ↦ elim (Bool-cases (ltb settings.max_document_ids (length document_ids))) [
        | inl many ↦ rw (content, short, many) (_, refl)
        | inr few ↦ ground (arith, content, h, ltb→ge _ _ short, ltb→ge _ _ few)
      ]
    ]
  ]

  -- A query of white space only, one that is too long, and one with too many document ids are each
  -- refused as an invalid query, and nothing outside is called.
  pub ask_refused :
      (query : Text) (document_ids : List Text) (w : World)
      → IsRefused query document_ids
      → (t : Text) × (ask ports settings query document_ids w ≡ (err (invalid_query t), w))
  unfolding ask ask_stream retrieve ◌>>=◌
  ask_refused query document_ids w h =
      let (t, e) = validate_refused query document_ids w h in (t, rw e)
