-- ===== src/Llm/Deltas.antt =====
-- What services/rag-service/src/rag/adapters/groq_llm.py yields.
use rag_poc.Prelude.{
  ℕ, Text, ◌≡◌, ◌≢◌, refl, none, some, List, [], ◌∷◌, ◌++◌, All, Result, ok, err, arith,
}
use rag_poc.Failure.{Failure}
use rag_poc.Query.{Stream}
use rag_poc.Llm
use rag_poc.Llm.{
  ClientError, Chunks, ended, broken, without_choices, with_content, plain_bracket, translate,
  as_unavailable, stream,
}

-- The text of an answer: the contents of its chunks, one after another.
abbrev pub contents : Chunks → Text
contents ended = []
contents (broken e) = []
contents (without_choices rest) = contents rest
contents (with_content none rest) = contents rest
contents (with_content (some t) rest) = t ++ contents rest

abbrev pub end_of : Chunks → Result Failure (Unit {0})
end_of ended = ok tt
end_of (broken e) = err (as_unavailable e)
end_of (without_choices rest) = end_of rest
end_of (with_content content rest) = end_of rest

abbrev pub concat_texts : List Text → Text
concat_texts [] = []
concat_texts (t ∷ ts) = t ++ concat_texts ts

-- Neither of the two citation brackets occurs.
abbrev pub HasNoBracket : Text → Type 0
HasNoBracket t = All (λ c. (c ≢ 12304) × (c ≢ 12305)) t

-- A delta holds text, and no citation bracket.
abbrev pub IsDelta : Text → Type 0
IsDelta t = (t ≢ []) × HasNoBracket t

plain_bracket-plain : (c : ℕ) → (plain_bracket c ≢ 12304) × (plain_bracket c ≢ 12305)
unfolding plain_bracket
plain_bracket-plain c = ground arith

translate-HasNoBracket : (t : Text) → HasNoBracket (translate t)
unfolding translate
translate-HasNoBracket [] = tt
translate-HasNoBracket (c ∷ t) = (plain_bracket-plain c, translate-HasNoBracket t)

translate-append : (s t : Text) → translate (s ++ t) ≡ (translate s ++ translate t)
unfolding translate
translate-append [] t = refl
translate-append (c ∷ s) t = cc (translate-append s t)

-- What a stream of chunks yields: deltas that together are the whole text with its brackets
-- replaced, up to its end or its error.
pub record IsAnswer (chunks : Chunks) (s : Stream Text) : Type 0 where
  pub deltas : All IsDelta s.items
  pub text : concat_texts s.items ≡ translate (contents chunks)
  pub end : s.end ≡ end_of chunks

deltas-IsAnswer : (chunks : Chunks) → IsAnswer chunks (Llm.deltas chunks)
unfolding Llm.deltas translate
deltas-IsAnswer ended = record { deltas = tt; text = refl; end = refl }
deltas-IsAnswer (broken e) = record { deltas = tt; text = refl; end = refl }
deltas-IsAnswer (without_choices rest) =
    let a = deltas-IsAnswer rest in record { deltas = a.deltas; text = a.text; end = a.end }
deltas-IsAnswer (with_content none rest) =
    let a = deltas-IsAnswer rest in record { deltas = a.deltas; text = a.text; end = a.end }
deltas-IsAnswer (with_content (some []) rest) =
    let a = deltas-IsAnswer rest in record { deltas = a.deltas; text = a.text; end = a.end }
deltas-IsAnswer (with_content (some (c ∷ t)) rest) =
    let a = deltas-IsAnswer rest in
    record {
      deltas = ((λ is_empty. absurd (cc is_empty), translate-HasNoBracket (c ∷ t)), a.deltas);
      text = cc (a.text, translate-append (c ∷ t) (contents rest));
      end = a.end;
    }

-- Every delta that is yielded holds text and no citation bracket, the deltas together are the text of
-- the answer with its brackets replaced, wherever the chunks split it, and the stream ends as that of
-- the client does, with an error of the service as an unavailable dependency.
pub stream-IsAnswer : (chunks : Chunks) → IsAnswer chunks (stream (ok chunks))
unfolding stream
stream-IsAnswer chunks = deltas-IsAnswer chunks
