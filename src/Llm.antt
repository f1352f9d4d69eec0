-- ===== src/Llm.antt =====
-- services/rag-service/src/rag/adapters/groq_llm.py, its stream run to its end. The Groq client is a
-- parameter: the chunks of its stream.
pub mod Deltas
mod Tests
use rag_poc.Prelude.{
  ℕ, Text, str, Option, none, some, List, [], ◌∷◌, ◌++◌, map, ◌==◌, if◌then◌else◌, Result, ok, err,
}
use rag_poc.Failure.{Failure, dependency_unavailable}
use rag_poc.Query.{Stream}

-- What the client raises: an APIError, an HTTPError or an OSError with its type's name, or another
-- exception.
pub data ClientError : Type 0 where
  api_error http_error os_error : Text → ClientError
  other : Failure → ClientError

-- The stream of the client: chunks, without choices or with the content of the first one, up to its
-- end or to what it raises.
pub data Chunks : Type 0 where
  ended : Chunks
  broken : ClientError → Chunks
  without_choices : Chunks → Chunks
  with_content : Option Text → Chunks → Chunks

-- _CITATION_BRACKETS
unfoldable pub plain_bracket : ℕ → ℕ
plain_bracket c = if c == 12304 then b'[' else if c == 12305 then b']' else c

unfoldable pub translate : Text → Text
unfolding plain_bracket
translate t = map plain_bracket t

-- the except clause
unfoldable pub as_unavailable : ClientError → Failure
as_unavailable (api_error name) = dependency_unavailable (str "groq: " ++ name)
as_unavailable (http_error name) = dependency_unavailable (str "groq: " ++ name)
as_unavailable (os_error name) = dependency_unavailable (str "groq: " ++ name)
as_unavailable (other e) = e

abbrev pub yielding : Text → Stream Text → Stream Text
yielding delta s = record { items = delta ∷ s.items; end = s.end }

-- the loop over the chunks
unfoldable pub deltas : Chunks → Stream Text
unfolding translate as_unavailable
deltas ended = record { items = []; end = ok tt }
deltas (broken e) = record { items = []; end = err (as_unavailable e) }
deltas (without_choices rest) = deltas rest
deltas (with_content none rest) = deltas rest
deltas (with_content (some []) rest) = deltas rest
deltas (with_content (some (c ∷ t)) rest) = yielding (translate (c ∷ t)) (deltas rest)

-- stream, for what the call that creates the client's stream came to
unfoldable pub stream : Result ClientError Chunks → Stream Text
unfolding deltas
stream (err e) = record { items = []; end = err (as_unavailable e) }
stream (ok chunks) = deltas chunks
