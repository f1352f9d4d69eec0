-- ===== src/Embedder/Tests.antt =====
-- The embedder of services/rag-service/src/rag/adapters/ollama_embedder.py with scripted clients.
use rag_poc.Prelude.{ℕ, ◌≡◌, ◌↔◌, refl, Text, str, Bool, List, [], ◌∷◌, map, length, ◌+◌, ok, err}
use rag_poc.Value.{pos}
use rag_poc.Exec.{Exec, pure, modify, ◌>>=◌}
use rag_poc.Deadline
use rag_poc.Deadline.{Deadline}
use rag_poc.Ingest.{Ports, Point, make_points, embed, embed_batches, check, call, ask, note}
use rag_poc.Ingest.Chunks.{batches}
use rag_poc.Ingest.Points.{IsMadeOf}
use rag_poc.Embedder.{
  Client, OllamaEmbedder, EmbedError, model_not_available, response_error, dimension,
  documents_port, embed_documents, counted, ClientError, response_error, as_failure,
}
use rag_poc.Embedder
use rag_poc.Embedder.Laws.{probe, dimension_exact}
use rag_poc.Embedder.Aligned.{with_embedder, with_embedder-aligned}

-- One float for each input; the world counts the calls.
abbrev sample_client : Client ℕ ℕ
sample_client = record { embed = λ model texts w. (ok (map (λ t. 7 ∷ []) texts), w + 1) }

abbrev sample : OllamaEmbedder
sample = record { model = str "qwen"; query_instruction = str "find" }

dimension_exact_example :
    ((d : ℕ)
      → ((dimension sample_client sample 0).0 ≡ ok d)
        ↔ ((v : List ℕ) × (probe sample_client sample 0 ≡ ok (v ∷ [])) × (length v ≡ d)))
    × ((m : Text)
        → ((dimension sample_client sample 0).0 ≡ err (model_not_available m))
          ↔ ((probe sample_client sample 0 ≡ err (response_error (pos 404))) × (sample.model ≡ m)))
dimension_exact_example = dimension_exact sample_client sample 0

abbrev sample_ports : Ports
sample_ports = record {
  World = ℕ;
  Vector = ℕ;
  Parser = Unit {0};
  clock = λ w. (w, w);
  now = λ w. (w, w);
  exists = λ hash w. (ok Bool.false, w);
  register = λ doc w. (ok tt, w);
  get = λ key limit w. (ok [], w);
  parser_for = λ filename w. (ok tt, w);
  parse = λ parser content w. (ok [], w);
  lower = λ t. t;
  split_text = λ markdown size overlap t w. (ok [], w);
  embed_documents = λ ts w. (ok [], w);
  delete_by_hash = λ hash w. (ok tt, w);
  upsert = λ points w. (ok tt, w);
}

abbrev sample_upsert : List (Point (List ℕ)) → Exec ℕ (Unit {0})
sample_upsert points w = (ok tt, w)

abbrev chunks : List Text
chunks = str "one" ∷ str "two" ∷ []

abbrev vectors : List (List ℕ)
vectors = (7 ∷ []) ∷ (7 ∷ []) ∷ []

abbrev soon : Deadline
soon = record { expires_at = 10 }

embedded :
    (embed
      (with_embedder sample_ports sample_upsert sample_client sample)
      soon
      1
      chunks
      (record { world = 0; log = [] })).0
    ≡ ok vectors
unfolding embed embed_batches check call ask note batches pure modify ◌>>=◌ Deadline.check
    documents_port embed_documents Embedder.embed counted
embedded = refl

with_embedder-aligned_example :
    (points : List (Point (List ℕ))) × (make_points (str "h") (str "a") 0 chunks vectors
      ≡ ok points)
    × IsMadeOf (str "h") (str "a") 0 chunks vectors points
with_embedder-aligned_example =
    with_embedder-aligned sample_ports sample_upsert sample_client sample soon (str "h") (str "a") 1
      chunks (record { world = 0; log = [] }) vectors embedded
