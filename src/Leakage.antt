-- ===== src/Leakage.antt =====
-- evals/leakage.py. A set is a list, up to its order and repetitions; str.lower is a parameter.
pub mod Shared
mod Tests
use rag_poc.Prelude.{
  ℕ, Text, str, Bool, true, false, ◌&&◌, ◌||◌, List, [], ◌∷◌, map, text_eq, join, take, length, ltb,
  leb, ◌==◌, if◌then◌else◌,
}

-- the characters that _NON_WORD leaves out
abbrev is_word_character : ℕ → Bool
is_word_character c = (leb b'0' c && leb c b'9') || (leb b'a' c && leb c b'z')

abbrev prepend_word : Text → List Text → List Text
prepend_word [] words = words
prepend_word (c ∷ t) words = (c ∷ t) ∷ words

-- The word that a text begins with, and the words after it.
abbrev split_words : Text → Text × List Text
split_words [] = ([], [])
split_words (c ∷ t) =
    let (word, words) = split_words t in
    if is_word_character c then (c ∷ word, words) else ([], prepend_word word words)

-- normalise
unfoldable pub normalise : (Text → Text) → Text → List Text
normalise lower text = let (word, words) = split_words (lower text) in prepend_word word words

-- _ngrams
unfoldable pub ngrams : ℕ → List Text → List (List Text)
ngrams n [] = if n == 0 then [] ∷ [] else []
ngrams n (w ∷ ws) =
    let rest = ngrams n ws in if ltb (length (w ∷ ws)) n then [] else take n (w ∷ ws) ∷ rest

-- equality of tuples of words
unfoldable pub words_eq : List Text → List Text → Bool
words_eq [] [] = true
words_eq (s ∷ ss) (t ∷ ts) = text_eq s t && words_eq ss ts
words_eq _ _ = false

unfoldable pub has_gram : List Text → List (List Text) → Bool
unfolding words_eq
has_gram g [] = false
has_gram g (h ∷ hs) = words_eq g h || has_gram g hs

-- the intersection of two sets
unfoldable pub common : List (List Text) → List (List Text) → List (List Text)
unfolding has_gram
common [] hs = []
common (g ∷ gs) hs = let rest = common gs hs in if has_gram g hs then g ∷ rest else rest

-- shared_ngrams
unfoldable pub shared_ngrams : (Text → Text) → Text → Text → ℕ → List Text
unfolding normalise ngrams common
shared_ngrams lower question document n =
    map (join (str " "))
      (common (ngrams n (normalise lower question)) (ngrams n (normalise lower document)))
