-- ===== src/Grpc/Replies.antt =====
-- What a client of services/rag-service/src/rag/transport/grpc_server.py is told.
use rag_poc.Prelude.{
  ℕ, suc, ◌+◌, Text, str, ◌≡◌, ◌⊎◌, inl, inr, refl, sym, Bool, true, false, Bool-cases, Option,
  none, some, List, [], ◌∷◌, ◌++◌, map, length, Result, ok, err, arith,
}
use rag_poc.Failure.{Failure, invalid_query, query_unavailable}
use rag_poc.Query.{Hit, Message, Stream, Ports, QuerySettings, ask, ask_stream}
use rag_poc.Query.Messages.{IsRefused, ask_refused}
use rag_poc.Grpc.{
  invalid_argument, unavailable, internal, Abort, Response, source_of, abort, response_of, reply_of,
  Streamed, sending, send, streamed, serve_ask, serve_ask_stream,
}

-- The abort of an exception: only the text of the two query errors is sent to the client.
abbrev pub IsAbortOf : Failure → Abort → Type 0
IsAbortOf (invalid_query text) a = (a.code ≡ invalid_argument) × (a.details ≡ text)
IsAbortOf (query_unavailable text) a = (a.code ≡ unavailable) × (a.details ≡ text)
IsAbortOf _ a = (a.code ≡ internal) × (a.details ≡ str "internal error")

abort-IsAbortOf : (e : Failure) → IsAbortOf e (abort e)
unfolding abort
abort-IsAbortOf (invalid_query text) = (refl, refl)
abort-IsAbortOf (query_unavailable text) = (refl, refl)
abort-IsAbortOf _ = (refl, refl)

-- Before each of these messages, the first one the i-th, the client was there.
abbrev pub WasThere : {A : Type 0} → (ℕ → Bool) → ℕ → List A → Type 0
WasThere active i [] = Unit
WasThere active i (x ∷ xs) = (active i ≡ true) × WasThere active (suc i) xs

-- How an answer that ends so ends the RPC: without an abort, or with that of the exception.
abbrev pub EndsRpc : Result Failure (Unit {0}) → Option Abort → Type 0
EndsRpc (ok u) aborted = aborted ≡ none
EndsRpc (err e) aborted = (a : Abort) × (aborted ≡ some a) × IsAbortOf e a

-- The messages were sent up to the end of the answer, which ended so; or up to one before which the
-- client had gone away, and nothing more.
abbrev pub SentUpTo :
    {S : Type 0}
    → (ℕ → Bool)
    → ℕ
    → List (Message S)
    → Result Failure (Unit {0})
    → Streamed S
    → Type 0
SentUpTo {S} active i messages end s =
    ((s.sent ≡ map response_of messages) × EndsRpc end s.aborted)
    ⊎ ((next : Response S) × (rest : List (Response S)) × (map response_of messages
          ≡ (s.sent ++ (next ∷ rest)))
        × (active (i + length s.sent) ≡ false)
        × (s.aborted ≡ none))

-- So they were sent, and before each that was sent the client was there.
abbrev pub IsSent :
    {S : Type 0}
    → (ℕ → Bool)
    → ℕ
    → List (Message S)
    → Result Failure (Unit {0})
    → Streamed S
    → Type 0
IsSent active i messages end s = WasThere active i s.sent × SentUpTo active i messages end s

zero_right : (i : ℕ) → i + 0 ≡ i
zero_right i = omega arith

add_suc : (i n : ℕ) → suc i + n ≡ i + suc n
add_suc i n = omega arith

send-IsSent :
    {S : Type 0} (active : ℕ → Bool) (i : ℕ) (messages : List (Message S))
    (end : Result Failure (Unit {0}))
    → IsSent active i messages end (send active i messages end)
unfolding send
send-IsSent active i [] (ok u) = (tt, inl (refl, refl))
send-IsSent active i [] (err e) = (tt, inl (refl, (abort e, refl, abort-IsAbortOf e)))
send-IsSent {S} active i (m ∷ ms) end =
    let (there, sent) = send-IsSent {S = S} active (suc i) ms end in
    elim (Bool-cases (active i)) [
      | inl e ↦ rw e ((e, there), after_one sent)
      | inr e ↦ rw e (tt, inr (_, _, refl, inactive e, refl))
    ]
  where
    inactive : active i ≡ false → active (i + 0) ≡ false
    inactive e = rw (zero_right i) e

    after_one :
        SentUpTo active (suc i) ms end (send active (suc i) ms end)
        → SentUpTo active i (m ∷ ms) end (sending (response_of m) (send active (suc i) ms end))
    after_one (inl (all, ended)) = inl (cc all, ended)
    after_one (inr (next, rest, all, gone, none_aborted)) = inr (
      next,
      rest,
      cc all,
      rw (sym (add_suc i (length (send active (suc i) ms end).sent))) gone,
      none_aborted,
    )

module _ (ports : Ports) (settings : QuerySettings ports.Score) (query : Text)
    (document_ids : List Text) where
  open ports use {World, Score}

  -- What AskStream did with what the service answered: it aborted without a message where the
  -- service raised; else it sent the messages up to the end or up to the first one before which the
  -- client had gone away, and closed them.
  abbrev pub IsStreamed :
      (ℕ → Bool) → Result Failure (Stream (Message Score)) → Streamed Score → Type 0
  IsStreamed active (err e) s = (s.sent ≡ []) × (a : Abort) × (s.aborted ≡ some a) × IsAbortOf e a
  IsStreamed active (ok messages) s =
      IsSent active 0 messages.items messages.end s × (s.closed ≡ true)

  -- AskStream sends the service's messages in their order: each only while the client is there, and all
  -- of them up to the end or to the first one before which the client has gone away, and none after
  -- it. It then always closes them. An exception at their end aborts the RPC after the last message
  -- with the abort of the exception, and one that the service raises at once before any message.
  pub serve_ask_stream-IsStreamed :
      (active : ℕ → Bool) (w : World)
      → IsStreamed active
          (ask_stream ports settings query document_ids w).0
          (serve_ask_stream ports settings active query document_ids w).0
  unfolding serve_ask_stream
  serve_ask_stream-IsStreamed active w =
      of_answer (ask_stream ports settings query document_ids w).0
    where
      of_answer :
          (r : Result Failure (Stream (Message Score))) → IsStreamed active r (streamed active r)
      of_answer (err e) = (refl, abort e, refl, abort-IsAbortOf e)
      of_answer (ok messages) = (send-IsSent active 0 messages.items messages.end, refl)

  -- What Ask answers: the answer of the service with its hits as sources, or the abort of the
  -- exception.
  abbrev pub IsAnswered :
      Result Failure (Text × List (Hit Score)) → Result Abort (Response Score) → Type 0
  IsAnswered (ok (answer, hits)) r =
      r ≡ ok (record { answer = answer; context_used = map source_of hits })
  IsAnswered (err e) r = (a : Abort) × (r ≡ err a) × IsAbortOf e a

  -- Ask answers with what the service returned, and aborts with the code of what it raised: only the
  -- text of a query error is sent, and any other exception is an internal error without details. A
  -- query that is empty, too long or has too many document ids is aborted as an invalid argument, and
  -- nothing outside is called.
  pub serve_ask-IsAnswered :
      (w : World)
      → IsAnswered
          (ask ports settings query document_ids w).0
          (serve_ask ports settings query document_ids w).0
        × (IsRefused ports settings query document_ids
            → (a : Abort) × (serve_ask ports settings query document_ids w ≡ (err a, w))
              × (a.code ≡ invalid_argument))
  unfolding serve_ask
  serve_ask-IsAnswered w = (
    of_answer (ask ports settings query document_ids w).0,
    λ refused.
        let (t, e) = ask_refused ports settings query document_ids w refused in
        (abort (invalid_query t), rw e refl, (abort-IsAbortOf (invalid_query t)).0),
  )
    where
      of_answer : (r : Result Failure (Text × List (Hit Score))) → IsAnswered r (reply_of r)
      of_answer (ok (answer, hits)) = refl
      of_answer (err e) = (abort e, refl, abort-IsAbortOf e)
