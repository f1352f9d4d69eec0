-- ===== src/Llm/Tests.antt =====
-- The stream of services/rag-service/src/rag/adapters/groq_llm.py at concrete chunks.
use rag_poc.Prelude.{◌≡◌, refl, str, none, some, [], ◌∷◌, ok}
use rag_poc.Llm
use rag_poc.Llm.{Chunks, ended, without_choices, with_content, plain_bracket, translate, stream}
use rag_poc.Llm.Deltas.{IsAnswer, stream-IsAnswer}

abbrev chunks : Chunks
chunks = with_content (some (str "As ")) (
    without_choices (
      with_content (some (12304 ∷ []))
        (with_content none (with_content (some (b'1' ∷ (12305 ∷ []))) ended))))

yielded : (stream (ok chunks)).items ≡ (str "As " ∷ str "[" ∷ str "1]" ∷ [])
unfolding stream Llm.deltas translate plain_bracket
yielded = refl

stream-IsAnswer_example : IsAnswer chunks (stream (ok chunks))
stream-IsAnswer_example = stream-IsAnswer chunks
