-- ===== src/Index/Tests.antt =====
-- The index of services/rag-service/src/rag/adapters/qdrant_index.py over a client that counts its
-- calls and fails at the third.
use rag_poc.Prelude.{ℕ, ◌+◌, refl, str, true, List, [], ◌∷◌, ltb, if◌then◌else◌, Result, ok, err}
use rag_poc.Ingest.{Point}
use rag_poc.Index.{Client, ClientError, http_error, QdrantIndex, upsert}
use rag_poc.Index.Upsert.{IsRequested, upsert-IsRequested}

abbrev answer : {A : Type 0} → A → ℕ → Result ClientError A × ℕ
answer a w = (if ltb w 2 then ok a else err (http_error (str "timeout")), w + 1)

abbrev sample_client : Client ℕ ℕ ℕ
sample_client = record {
  delete = λ collection filter. answer tt;
  upsert = λ collection points. answer tt;
  query_points = λ collection vector top_k filter threshold. answer [];
  collection_exists = λ collection. answer true;
  count = λ collection. answer 0;
}

abbrev sample_index : QdrantIndex ℕ
sample_index = record {
  collection = str "docs";
  upsert_batch = 1;
  uuid = λ t. t;
  positive = λ s. true;
}

abbrev point : ℕ → Point ℕ
point i = record { hash = str "h"; filename = str "a"; chunk_index = i; text = str "t"; vector = i }

abbrev points : List (Point ℕ)
points = point 0 ∷ point 1 ∷ point 2 ∷ []

upsert-IsRequested_example :
    IsRequested sample_client sample_index 1 points 0 (upsert sample_client sample_index points 0)
upsert-IsRequested_example = upsert-IsRequested sample_client sample_index 0 points 0 refl
