-- ===== src/Index/Upsert.antt =====
-- What services/rag-service/src/rag/adapters/qdrant_index.py asks of Qdrant for the points it is given.
use rag_poc.Prelude.{
  ℕ, zero, suc, str, decimal, ◌≤◌, ◌≡◌, refl, sym, ap, subst, List, [], ◌∷◌, ◌++◌, map, All, length,
  Result, ok, err,
}
use rag_poc.Failure.{Failure, other_error}
use rag_poc.Ingest.{Point}
use rag_poc.Ingest.Chunks.{batches, concat, concat-batches, batches-fit}
use rag_poc.Index.{
  Client, ClientError, QdrantIndex, PointStruct, as_unavailable, point_id, struct_of,
  upsert_batches, upsert,
}

map-append : {A B : Type 0} (f : A → B) (xs ys : List A) → map f (xs ++ ys) ≡ (map f xs ++ map f ys)
map-append f [] ys = refl
map-append f (x ∷ xs) ys = cc (map-append f xs ys)

length-map : {A B : Type 0} (f : A → B) (xs : List A) → length (map f xs) ≡ length xs
length-map f [] = refl
length-map f (x ∷ xs) = cc (length-map f xs)

module _ {W V S : Type 0} (client : Client W V S) (index : QdrantIndex S) where
  abbrev structs : List (Point V) → List (PointStruct V)
  structs points = map (struct_of client index) points

  -- The requests for these structs, from one world to another: each is a call of the client with the
  -- collection and the next structs, at least one and at most `size`. They end when no struct is left,
  -- or with the first one that the client refuses.
  pub data Requests (size : ℕ) (w' : W)
      : Result Failure (Unit {0}) → List (PointStruct V) → W → Type 0 where
    all_sent : Requests size w' (ok tt) [] w'
    sent :
        (batch rest all : List (PointStruct V)) (w v : W) (u : Unit {0})
        (r : Result Failure (Unit {0}))
        → all ≡ (batch ++ rest)
        → 1 ≤ length batch
        → length batch ≤ size
        → client.upsert index.collection batch w ≡ (ok u, v)
        → Requests size w' r rest v
        → Requests size w' r all w
    refused :
        (batch rest all : List (PointStruct V)) (w : W) (e : ClientError)
        → all ≡ (batch ++ rest)
        → 1 ≤ length batch
        → length batch ≤ size
        → client.upsert index.collection batch w ≡ (err e, w')
        → Requests size w' (err (as_unavailable e)) all w

  -- The struct carries the point: its id is made of the hash and the number of the chunk.
  pub record IsStructOf (p : Point V) (s : PointStruct V) : Type 0 where
    pub id : s.id ≡ index.uuid (p.hash ++ (str ":" ++ decimal p.chunk_index))
    pub vector : s.vector ≡ p.vector
    pub hash : s.payload.hash ≡ p.hash
    pub filename : s.payload.filename ≡ p.filename
    pub chunk_index : s.payload.chunk_index ≡ p.chunk_index
    pub text : s.payload.text ≡ p.text

  -- The structs carry the points, one each and in their order.
  abbrev pub AreStructsOf : List (Point V) → List (PointStruct V) → Type 0
  AreStructsOf [] [] = Unit
  AreStructsOf [] (s ∷ ss) = ⊥
  AreStructsOf (p ∷ ps) [] = ⊥
  AreStructsOf (p ∷ ps) (s ∷ ss) = IsStructOf p s × AreStructsOf ps ss

  structs-AreStructsOf : (ps : List (Point V)) → AreStructsOf ps (structs ps)
  unfolding struct_of point_id
  structs-AreStructsOf [] = tt
  structs-AreStructsOf (p ∷ ps) = (
    record {
      id = refl;
      vector = refl;
      hash = refl;
      filename = refl;
      chunk_index = refl;
      text = refl;
    },
    structs-AreStructsOf ps,
  )

  -- A run that came to this result was these requests.
  abbrev Requested : ℕ → List (Point V) → W → Result Failure (Unit {0}) × W → Type 0
  Requested size points w (r, w') = Requests size w' r (structs points) w

  -- A run that came to this result was the requests for structs that carry the points.
  abbrev pub IsRequested : ℕ → List (Point V) → W → Result Failure (Unit {0}) × W → Type 0
  IsRequested size points w (r, w') =
      (all : List (PointStruct V)) × AreStructsOf points all × Requests size w' r all w

  upsert_batches-Requested :
      (size : ℕ) (bs : List (List (Point V))) (w : W)
      → All (λ b. (1 ≤ length b) × (length b ≤ size)) bs
      → Requested size (concat bs) w (upsert_batches client index bs w)
  unfolding upsert_batches
  upsert_batches-Requested size [] w h = all_sent
  upsert_batches-Requested size (b ∷ bs) w (fits, h) =
      of_call (client.upsert index.collection (structs b) w).0
        (client.upsert index.collection (structs b) w).1 refl
        (λ v. upsert_batches-Requested size bs v h)
    where
      joined : structs (concat (b ∷ bs)) ≡ (structs b ++ structs (concat bs))
      joined = map-append (struct_of client index) b (concat bs)

      some_sent : 1 ≤ length (structs b)
      some_sent = rw (length-map (struct_of client index) b) fits.0

      few_sent : length (structs b) ≤ size
      few_sent = rw (length-map (struct_of client index) b) fits.1

      of_call :
          (r : Result ClientError (Unit {0})) (v : W)
          → client.upsert index.collection (structs b) w ≡ (r, v)
          → ((v : W) → Requested size (concat bs) v (upsert_batches client index bs v))
          → Requested size (concat (b ∷ bs)) w (elim r [
            | ok u ↦ upsert_batches client index bs v
            | err e ↦ (err (as_unavailable e), v)
          ])
      of_call (ok u) v e k =
          sent (structs b) (structs (concat bs)) _ w v u _ joined some_sent few_sent e (k v)
      of_call (err x) v e k =
          refused (structs b) (structs (concat bs)) _ w x joined some_sent few_sent e

  -- With a batch of at least one point, an upsert is a row of calls of the client for the points, in
  -- their order, each point with its id, its vector and its payload: each call has the collection and
  -- the next points, at least one and at most that many. It returns only if every call did and every
  -- point was in one. It raises what the first refused call comes to, and makes no call after that one.
  pub upsert-IsRequested :
      (size : ℕ) (points : List (Point V)) (w : W)
      → index.upsert_batch ≡ suc size
      → IsRequested (suc size) points w (upsert client index points w)
  unfolding upsert
  upsert-IsRequested size points w is_size =
      let in_batches : upsert client index points w
          ≡ upsert_batches client index (batches (suc size) points) w =
        ap
          (λ n. elim n [
            | zero ↦ (err (other_error (str "ValueError")), w)
            | suc k ↦ upsert_batches client index (batches (suc k) points) w
          ])
          is_size in
      let requested =
        subst
          (λ ps.
            Requested (suc size) ps w (upsert_batches client index (batches (suc size) points) w))
          (concat-batches size points)
          (upsert_batches-Requested (suc size) (batches (suc size) points) w
            (batches-fit size points)) in
      subst (IsRequested (suc size) points w) (sym in_batches)
        (structs points, structs-AreStructsOf points, requested)
