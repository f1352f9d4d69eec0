-- ===== src/Index.antt =====
-- services/rag-service/src/rag/adapters/qdrant_index.py. The Qdrant client and uuid5 are parameters.
pub mod Upsert
mod Tests
use rag_poc.Prelude.{
  ℕ, zero, suc, Text, str, Bool, true, false, Option, none, some, List, [], ◌∷◌, ◌++◌, map, decimal,
  if◌then◌else◌, Result, ok, err,
}
use rag_poc.Failure.{Failure, dependency_unavailable, other_error}
use rag_poc.Ingest.{Point}
use rag_poc.Ingest.Chunks.{batches}
use rag_poc.Query.{Hit}

-- What the client raises: an ApiException, an HTTPError or an OSError with its type's name, or
-- another exception.
pub data ClientError : Type 0 where
  api_exception http_error os_error : Text → ClientError
  other : Failure → ClientError

-- The payload of a point. The points of the collection are those that upsert stores, so it has these
-- fields.
pub record Payload : Type 0 where
  pub hash : Text
  pub filename : Text
  pub chunk_index : ℕ
  pub text : Text

pub record PointStruct (V : Type 0) : Type 0 where
  pub id : Text
  pub vector : V
  pub payload : Payload

-- A filter on the field hash: one value, any of a list, or no condition.
pub data Filter : Type 0 where
  match_value : Text → Filter
  match_any : List Text → Filter
  all_points : Filter

pub record ScoredPoint (S : Type 0) : Type 0 where
  pub score : S
  pub payload : Payload

-- The calls of the client, each with the name of the collection.
pub record Client (W V S : Type 0) : Type 0 where
  pub delete : Text → Filter → W → Result ClientError (Unit {0}) × W
  pub upsert : Text → List (PointStruct V) → W → Result ClientError (Unit {0}) × W
  pub query_points :
      Text → V → ℕ → Option Filter → Option S → W → Result ClientError (List (ScoredPoint S)) × W
  pub collection_exists : Text → W → Result ClientError Bool × W
  pub count : Text → W → Result ClientError ℕ × W

-- QdrantIndex.__init__; `uuid` is uuid5 in the fixed namespace, `positive` the test min_score > 0.
pub record QdrantIndex (S : Type 0) : Type 0 where
  pub collection : Text
  pub upsert_batch : ℕ
  pub uuid : Text → Text
  pub positive : S → Bool

-- the except clause of _guard
unfoldable pub as_unavailable : ClientError → Failure
as_unavailable (api_exception name) = dependency_unavailable (str "qdrant: " ++ name)
as_unavailable (http_error name) = dependency_unavailable (str "qdrant: " ++ name)
as_unavailable (os_error name) = dependency_unavailable (str "qdrant: " ++ name)
as_unavailable (other e) = e

-- _guard, for what the call came to
abbrev pub guard : {A : Type 0} → Result ClientError A → Result Failure A
guard (ok a) = ok a
guard (err e) = err (as_unavailable e)

abbrev pub hit_of : {S : Type 0} → ScoredPoint S → Hit S
hit_of p = record {
  hash = p.payload.hash;
  filename = p.payload.filename;
  chunk_index = p.payload.chunk_index;
  text = p.payload.text;
  score = p.score;
}

abbrev pub hits_of :
    {S : Type 0} → Result Failure (List (ScoredPoint S)) → Result Failure (List (Hit S))
hits_of (ok points) = ok (map hit_of points)
hits_of (err e) = err e

-- _hash_filter(hashes, match_any=True) if hashes else None
abbrev pub any_of : List Text → Option Filter
any_of [] = none
any_of (h ∷ hs) = some (match_any (h ∷ hs))

module _ {W V S : Type 0} (client : Client W V S) (index : QdrantIndex S) where
  -- point_id
  unfoldable pub point_id : Text → ℕ → Text
  point_id hash chunk_index = index.uuid (hash ++ (str ":" ++ decimal chunk_index))

  unfoldable pub struct_of : Point V → PointStruct V
  unfolding point_id
  struct_of p = record {
    id = point_id p.hash p.chunk_index;
    vector = p.vector;
    payload = record {
      hash = p.hash;
      filename = p.filename;
      chunk_index = p.chunk_index;
      text = p.text;
    };
  }

  -- delete_by_hash
  unfoldable pub delete_by_hash : Text → W → Result Failure (Unit {0}) × W
  unfolding as_unavailable
  delete_by_hash hash w =
      let (r, w') = client.delete index.collection (match_value hash) w in (guard r, w')

  -- the loop of upsert
  unfoldable pub upsert_batches : List (List (Point V)) → W → Result Failure (Unit {0}) × W
  unfolding as_unavailable struct_of
  upsert_batches [] w = (ok tt, w)
  upsert_batches (batch ∷ rest) w =
      let (r, w') = client.upsert index.collection (map struct_of batch) w in
      elim r [ ok u ↦ upsert_batches rest w' | err e ↦ (err (as_unavailable e), w') ]

  -- upsert; range() raises at the step 0
  unfoldable pub upsert : List (Point V) → W → Result Failure (Unit {0}) × W
  unfolding upsert_batches
  upsert points w = elim index.upsert_batch [
    | zero ↦ (err (other_error (str "ValueError")), w)
    | suc size ↦ upsert_batches (batches (suc size) points) w
  ]

  -- search
  unfoldable pub search : V → ℕ → S → List Text → W → Result Failure (List (Hit S)) × W
  unfolding as_unavailable
  search vector top_k min_score hashes w =
      let threshold : Option S = if index.positive min_score then some min_score else none in
      let (r, w') = client.query_points index.collection vector top_k (any_of hashes) threshold w in
      (hits_of (guard r), w')

  -- collection_exists
  unfoldable pub collection_exists : W → Result Failure Bool × W
  unfolding as_unavailable
  collection_exists w = let (r, w') = client.collection_exists index.collection w in (guard r, w')

  -- count
  unfoldable pub count : W → Result Failure ℕ × W
  unfolding as_unavailable
  count w = let (r, w') = client.count index.collection w in (guard r, w')

  -- clear
  unfoldable pub clear : W → Result Failure (Unit {0}) × W
  unfolding as_unavailable
  clear w = let (r, w') = client.delete index.collection all_points w in (guard r, w')
