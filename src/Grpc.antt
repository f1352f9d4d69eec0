-- ===== src/Grpc.antt =====
-- RagEngineServicer of services/rag-service/src/rag/transport/grpc_server.py. A client that goes away
-- is seen by is_active before a message; gRPC closing the generator at a yield is left out.
pub mod Replies
mod Tests
use rag_poc.Prelude.{
  ℕ, suc, Text, str, Bool, true, false, Option, none, some, List, [], ◌∷◌, map, if◌then◌else◌,
  Result, ok, err,
}
use rag_poc.Failure.{Failure, invalid_query, query_unavailable}
use rag_poc.Query.{Hit, Message, Stream, Ports, QuerySettings, ask, ask_stream}

pub data StatusCode : Type 0 where
  invalid_argument unavailable internal : StatusCode

-- How an RPC is aborted: its code and its details.
pub record Abort : Type 0 where
  pub code : StatusCode
  pub details : Text

pub record Source (S : Type 0) : Type 0 where
  pub document_id : Text
  pub snippet : Text
  pub similarity_score : S
  pub filename : Text

-- AskResponse and AskStreamResponse
pub record Response (S : Type 0) : Type 0 where
  pub answer : Text
  pub context_used : List (Source S)

-- _source
unfoldable pub source_of : {S : Type 0} → Hit S → Source S
source_of hit = record {
  document_id = hit.hash;
  snippet = hit.text;
  similarity_score = hit.score;
  filename = hit.filename;
}

-- _abort
unfoldable pub abort : Failure → Abort
abort (invalid_query text) = record { code = invalid_argument; details = text }
abort (query_unavailable text) = record { code = unavailable; details = text }
abort e = record { code = internal; details = str "internal error" }

abbrev pub response_of : {S : Type 0} → Message S → Response S
response_of message = record {
  answer = message.answer;
  context_used = map source_of message.sources;
}

abbrev pub reply_of :
    {S : Type 0} → Result Failure (Text × List (Hit S)) → Result Abort (Response S)
reply_of (ok (answer, hits)) = ok (record { answer = answer; context_used = map source_of hits })
reply_of (err e) = err (abort e)

-- What AskStream did: the messages it sent, how it was aborted if it was, and whether it closed the
-- messages of the service.
pub record Streamed (S : Type 0) : Type 0 where
  pub sent : List (Response S)
  pub aborted : Option Abort
  pub closed : Bool

abbrev pub sending : {S : Type 0} → Response S → Streamed S → Streamed S
sending response s = record s { sent = response ∷ s.sent }

abbrev pub at_end : {S : Type 0} → Result Failure (Unit {0}) → Streamed S
at_end (ok u) = record { sent = []; aborted = none; closed = false }
at_end (err e) = record { sent = []; aborted = some (abort e); closed = false }

-- messages.close()
abbrev pub close : {S : Type 0} → Streamed S → Streamed S
close s = record s { closed = true }

-- the loop of AskStream from its i-th message on; `active` is what is_active answers each time
unfoldable pub send :
    {S : Type 0} → (ℕ → Bool) → ℕ → List (Message S) → Result Failure (Unit {0}) → Streamed S
unfolding abort source_of
send active i [] end = at_end end
send active i (message ∷ messages) end =
    let rest = send active (suc i) messages end in
    if active i
    then sending (response_of message) rest
    else record { sent = []; aborted = none; closed = false }

-- the try statement and its finally clause; where ask_stream raised there are no messages to close
abbrev pub streamed : {S : Type 0} → (ℕ → Bool) → Result Failure (Stream (Message S)) → Streamed S
streamed active (ok s) = close (send active 0 s.items s.end)
streamed active (err e) = record { sent = []; aborted = some (abort e); closed = false }

module _ (ports : Ports) (settings : QuerySettings ports.Score) where
  open ports use {World, Score}

  -- Ask
  unfoldable pub serve_ask : Text → List Text → World → Result Abort (Response Score) × World
  unfolding abort source_of
  serve_ask query document_ids w =
      let (r, w') = ask ports settings query document_ids w in (reply_of r, w')

  -- AskStream
  unfoldable pub serve_ask_stream : (ℕ → Bool) → Text → List Text → World → Streamed Score × World
  unfolding send
  serve_ask_stream active query document_ids w =
      let (r, w') = ask_stream ports settings query document_ids w in (streamed active r, w')
