-- ===== src/Leakage/Tests.antt =====
-- The leakage check of evals/leakage.py at a concrete question.
use rag_poc.Prelude.{◌≡◌, ◌↔◌, refl, Text, str, List, [], ◌∷◌, In, length, join, text_eq}
use rag_poc.Leakage.{normalise, ngrams, words_eq, has_gram, common, shared_ngrams}
use rag_poc.Leakage.Shared.{Occurs, shared_ngrams_exact}

abbrev same : Text → Text
same t = t

abbrev question : Text
question = str "what is the red fox?"

abbrev document : Text
document = str "see: the red, red fox."

found : shared_ngrams same question document 2 ≡ (str "the red" ∷ str "red fox" ∷ [])
unfolding shared_ngrams normalise ngrams common has_gram words_eq text_eq join
found = refl

shared_ngrams_exact_example : In (str "red fox") (shared_ngrams same question document 2) ↔ (
    (g : List Text) × (str "red fox" ≡ join (str " ") g)
    × (length g ≡ 2)
    × Occurs g (normalise same question)
    × Occurs g (normalise same document))
shared_ngrams_exact_example = shared_ngrams_exact same question document 2 (str "red fox")
