-- ===== src/Embedder/Aligned.antt =====
-- The pipeline of ingest/service.py over the embedder of adapters/ollama_embedder.py
-- (services/rag-service/src/rag): its chunks and its vectors stay aligned.
use rag_poc.Prelude.{
  ℕ, zero, suc, ◌≡◌, refl, sym, subst, Text, List, [], ◌∷◌, ◌++◌, length, length-append, arith, ok,
}
use rag_poc.Exec.{Exec, pure, raise}
use rag_poc.Exec.Inversion.{bind-eq-ok}
use rag_poc.Deadline.{Deadline}
use rag_poc.Ingest.{
  Ports, State, Point, make_points, embed_batches, embed, embed_documents, embedding, call, check,
  note,
}
use rag_poc.Ingest.Chunks.{batches, concat, concat-batches}
use rag_poc.Ingest.Points.{IsMadeOf, make_points_lem}
use rag_poc.Embedder.{Client, OllamaEmbedder, documents_port}
use rag_poc.Embedder.Laws.{documents_port-Counts}

-- The law of a port for embeddings: it returns a vector for each text.
pub record CountsVectors (ports : Ports) : Type 0 where
  pub counts :
      (texts : List Text) (w : ports.World) (vectors : List ports.Vector)
      → (ports.embed_documents texts w).0 ≡ ok vectors
      → length vectors ≡ length texts

-- As many chunks as vectors make points.
make_points-total :
    {V : Type 0} (hash filename : Text) (i : ℕ) (cs : List Text) (vs : List V)
    → length vs ≡ length cs
    → (ps : List (Point V)) × (make_points hash filename i cs vs ≡ ok ps)
unfolding make_points
make_points-total hash filename i [] [] h = ([], refl)
make_points-total hash filename i [] (v ∷ vs) h = absurd (omega (arith, h))
make_points-total hash filename i (c ∷ cs) [] h = absurd (omega (arith, h))
make_points-total hash filename i (c ∷ cs) (v ∷ vs) h =
    let (ps, e) = make_points-total hash filename (suc i) cs vs (omega (arith, h)) in
    (
      record { hash = hash; filename = filename; chunk_index = i; text = c; vector = v } ∷ ps,
      rw e refl,
    )

module _ (ports : Ports) (law : CountsVectors ports) (deadline : Deadline) where
  open ports use {World, Vector}

  embed_batches-length :
      (bs : List (List Text)) (s : State World Vector) (vectors : List Vector)
      → (embed_batches ports deadline bs s).0 ≡ ok vectors
      → length vectors ≡ length (concat bs)
  unfolding embed_batches call pure
  embed_batches-length [] s vectors h = cc h
  embed_batches-length (b ∷ bs) s vectors h =
      let (u, _, h1) = bind-eq-ok (check ports deadline) _ s vectors h in
      let (vs, called, h3) = bind-eq-ok (embed_documents ports b) _ _ vectors h1 in
      let (u', _, here) = bind-eq-ok (note (embedding b)) _ _ vs called in
      let (more, there, h4) = bind-eq-ok (embed_batches ports deadline bs) _ _ vectors h3 in
      let appended : (vs ++ more) ≡ vectors = cc h4 in
      let counted = law.counts b _ vs here in
      let counted' = embed_batches-length bs _ more there in
      rw (sym appended)
        (omega (arith, length-append vs more, length-append b (concat bs), counted, counted'))

  embed-length :
      (size : ℕ) (chunks : List Text) (s : State World Vector) (vectors : List Vector)
      → (embed ports deadline size chunks s).0 ≡ ok vectors
      → length vectors ≡ length chunks
  unfolding embed raise
  embed-length zero chunks s vectors h = absurd (cc h)
  embed-length (suc size) chunks s vectors h =
      subst (λ cs. length vectors ≡ length cs) (concat-batches size chunks)
        (embed_batches-length (batches (suc size) chunks) s vectors h)

  embed-aligned :
      (hash filename : Text) (size : ℕ) (chunks : List Text) (s : State World Vector)
      (vectors : List Vector)
      → (embed ports deadline size chunks s).0 ≡ ok vectors
      → (points : List (Point Vector)) × (make_points hash filename 0 chunks vectors ≡ ok points)
        × IsMadeOf hash filename 0 chunks vectors points
  embed-aligned hash filename size chunks s vectors h =
      let (ps, e) =
        make_points-total hash filename 0 chunks vectors (embed-length size chunks s vectors h) in
      (ps, e, make_points_lem hash filename 0 chunks vectors ps e)

module _ {F : Type 0} (ports : Ports) (upsert : List (Point (List F)) → Exec ports.World (Unit {0}))
    (client : Client ports.World F) (embedder : OllamaEmbedder) where
  -- The ports of the pipeline with the embedder of the adapter, and an index of its vectors.
  abbrev pub with_embedder : Ports
  with_embedder = record {
    World = ports.World;
    Vector = List F;
    Parser = ports.Parser;
    clock = ports.clock;
    now = ports.now;
    exists = ports.exists;
    register = ports.register;
    get = ports.get;
    parser_for = ports.parser_for;
    parse = ports.parse;
    lower = ports.lower;
    split_text = ports.split_text;
    embed_documents = documents_port client embedder;
    delete_by_hash = ports.delete_by_hash;
    upsert = upsert;
  }

  with_embedder-CountsVectors : CountsVectors with_embedder
  with_embedder-CountsVectors = record { counts = documents_port-Counts client embedder }

  -- In the pipeline over the embedder of the adapter, whatever its client answers, the points are
  -- made whenever the embedding returns: the strict zip of the chunks with the vectors never raises,
  -- and each point holds a chunk and its own vector.
  pub with_embedder-aligned :
      (deadline : Deadline) (hash filename : Text) (size : ℕ) (chunks : List Text)
      (s : State ports.World (List F)) (vectors : List (List F))
      → (embed with_embedder deadline size chunks s).0 ≡ ok vectors
      → (points : List (Point (List F))) × (make_points hash filename 0 chunks vectors ≡ ok points)
        × IsMadeOf hash filename 0 chunks vectors points
  with_embedder-aligned deadline = embed-aligned with_embedder with_embedder-CountsVectors deadline
