-- ===== src/Query.antt =====
-- services/rag-service/src/rag/query/service.py: validated retrieval and the streamed answer. The
-- embedder, the vector index and the LLM of ports.py are the parameter `Ports`.
pub mod Passages
pub mod Ranking
pub mod Messages
pub mod Tests
use rag_poc.Prelude.{
  ℕ, zero, suc, Text, str, Bool, true, false, Option, none, some, List, [], ◌∷◌, ◌++◌, map, ltb,
  length, decimal, has_content, if◌then◌else◌, Result, ok, err,
}
use rag_poc.Failure.{Failure, dependency_unavailable, invalid_query, query_unavailable}
use rag_poc.Exec.{Exec, pure, raise, catch, ◌>>=◌, ◌>>◌}
use Passages.{build_user_message}

abbrev pub no_relevant_answer : Text
no_relevant_answer = str "No relevant information was found in the indexed documents."

-- A score is a float: the type of scores is a parameter.
pub record Hit (S : Type 0) : Type 0 where
  pub hash : Text
  pub filename : Text
  pub chunk_index : ℕ
  pub text : Text
  pub score : S

pub record Message (S : Type 0) : Type 0 where
  pub sources : List (Hit S)
  pub answer : Text

-- An iterator that has been run to its end: what it yielded, and how it ended.
pub record Stream (A : Type 0) : Type 0 where
  pub items : List A
  pub end : Result Failure (Unit {0})

pub record Ports : Type 1 where
  pub World : Type 0
  pub Vector : Type 0
  pub Score : Type 0
  pub lt : Score → Score → Bool
  pub embed_query : Text → Exec World Vector
  pub search : Vector → ℕ → Score → List Text → Exec World (List (Hit Score))
  pub stream : Text → Text → World → Stream Text × World

pub record QuerySettings (S : Type 0) : Type 0 where
  pub top_k : ℕ
  pub min_score : S
  pub max_query_chars : ℕ
  pub max_document_ids : ℕ
  pub system_prompt : Text

-- sorted(hits, key=..., reverse=True): from the highest score on, and hits of one score keep their
-- order.
module _ {S : Type 0} (lt : S → S → Bool) where
  unfoldable pub insert : Hit S → List (Hit S) → List (Hit S)
  insert h [] = h ∷ []
  insert h (k ∷ ks) = if lt h.score k.score then k ∷ insert h ks else h ∷ (k ∷ ks)

  unfoldable pub ranked : List (Hit S) → List (Hit S)
  unfolding insert
  ranked [] = []
  ranked (h ∷ hs) = insert h (ranked hs)

-- except DependencyUnavailable: the constructor's text is str(exc)
unfoldable pub as_query_error : Failure → Failure
as_query_error (dependency_unavailable text) = query_unavailable text
as_query_error e = e

abbrev pub ending : Result Failure (Unit {0}) → Result Failure (Unit {0})
ending (ok u) = ok u
ending (err e) = err (as_query_error e)

module _ {S : Type 0} where
  abbrev pub answer_message : Text → Message S
  answer_message delta = record { sources = []; answer = delta }

  abbrev pub sources_message : List (Hit S) → Message S
  sources_message hits = record { sources = hits; answer = [] }

module _ (ports : Ports) (settings : QuerySettings ports.Score) where
  open ports use {World, Score}

  -- _validate
  unfoldable pub validate : Text → List Text → Exec World (Unit {0})
  validate query document_ids =
      if has_content query
      then (if ltb settings.max_query_chars (length query)
          then raise (
              invalid_query (
                str "query is longer than "
                ++ (decimal settings.max_query_chars ++ str " characters")))
          else if ltb settings.max_document_ids (length document_ids)
          then raise (
              invalid_query
                (str "more than " ++ (decimal settings.max_document_ids ++ str " document_ids")))
          else pure tt)
      else raise (invalid_query (str "query is empty"))

  -- retrieve
  unfoldable pub retrieve : Text → List Text → Option Score → Exec World (List (Hit Score))
  retrieve query document_ids min_score = do
    validate query document_ids
    hits ←
        catch
          (do
            vector ← ports.embed_query query
            ports.search vector settings.top_k
                (elim min_score [ none ↦ settings.min_score | some s ↦ s ]) document_ids)
          (λ e. raise (as_query_error e))
    pure (ranked ports.lt hits)

  -- _answer, run to its end
  unfoldable pub answer : Text → List (Hit Score) → World → Stream (Message Score) × World
  answer query [] w = (
    record { items = sources_message [] ∷ answer_message no_relevant_answer ∷ []; end = ok tt },
    w,
  )
  answer query (h ∷ hs) w =
      let message = build_user_message query (map (λ k. (k.filename, k.text)) (h ∷ hs)) in
      let (s, w') = ports.stream settings.system_prompt message w in
      (
        record {
          items = sources_message (h ∷ hs) ∷ map answer_message s.items;
          end = ending s.end;
        },
        w',
      )

  -- ask_stream
  unfoldable pub ask_stream : Text → List Text → Exec World (Stream (Message Score))
  ask_stream query document_ids = do
    hits ← retrieve query document_ids none
    λ w. let (s, w') = answer query hits w in (ok s, w')

  abbrev pub joined : List (Message Score) → Text
  joined [] = []
  joined (m ∷ ms) = m.answer ++ joined ms

  abbrev pub first_sources : List (Message Score) → List (Hit Score)
  first_sources [] = []
  first_sources (m ∷ ms) = m.sources

  -- list(...) raises what the iterator ends with
  unfoldable pub collect : Stream (Message Score) → Exec World (Text × List (Hit Score))
  collect s = elim s.end [ ok u ↦ pure (joined s.items, first_sources s.items) | err e ↦ raise e ]

  -- ask
  unfoldable pub ask : Text → List Text → Exec World (Text × List (Hit Score))
  ask query document_ids = do s ← ask_stream query document_ids; collect s
