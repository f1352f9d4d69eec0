-- ===== src/Query/Passages.antt =====
-- services/rag-service/src/rag/query/service.py: the user message, and what it does to the names and
-- the text of documents, which are not trusted.
pub mod Attribute
pub mod Tags
use rag_poc.Prelude.{
  ℕ, zero, suc, ◌+◌, Text, str, Bool, true, false, ◌&&◌, ◌||◌, Option, none, some, List, [], ◌∷◌,
  ◌++◌, length, map, ◌==◌, leb, text_eq, join, decimal, is_space, if◌then◌else◌,
}

-- _NOT_IN_ATTRIBUTE
unfoldable pub is_markup : ℕ → Bool
is_markup c = c == b'"' || c == b'<' || c == b'>'

unfoldable pub translate : Text → Text
translate [] = []
translate (c ∷ t) = (if is_markup c then b' ' else c) ∷ translate t

-- A word is open when it stands at the front of the text read so far.
abbrev pub add_char : ℕ → Bool × List Text → Bool × List Text
add_char c (open_word, []) = if is_space c then (false, []) else (true, (c ∷ []) ∷ [])
add_char c (true, w ∷ ws) = if is_space c then (false, w ∷ ws) else (true, (c ∷ w) ∷ ws)
add_char c (false, w ∷ ws) = if is_space c then (false, w ∷ ws) else (true, (c ∷ []) ∷ (w ∷ ws))

unfoldable pub scan_words : Text → Bool × List Text
scan_words [] = (false, [])
scan_words (c ∷ t) = add_char c (scan_words t)

-- _attribute
unfoldable pub attribute : Text → Text
unfolding translate scan_words join
attribute value = join (str " ") (scan_words (translate value)).1

-- A character of the pattern under re.IGNORECASE: either case, and for s the long s as well.
unfoldable pub letter_matches : ℕ → ℕ → Bool
letter_matches p c = c == p || (c + 32 == p) || (p == b's' && c == 383)

-- What is left of a text after the pattern's letters.
unfoldable pub after_letters : Text → Text → Option Text
unfolding letter_matches
after_letters [] t = some t
after_letters (p ∷ ps) [] = none
after_letters (p ∷ ps) (c ∷ t) = if letter_matches p c then after_letters ps t else none

-- (\s*)passage: the letters are no spaces, so the spaces are all taken
unfoldable pub after_spaces : Text → Option Text
unfolding after_letters
after_spaces [] = none
after_spaces (c ∷ t) = if is_space c then after_spaces t else after_letters (str "passage") (c ∷ t)

-- What is left after a match of _CLOSING_TAG at the start.
unfoldable pub after_tag : Text → Option Text
unfolding after_spaces
after_tag (c ∷ d ∷ t) = if c == b'<' && d == b'/' then after_spaces t else none
after_tag _ = none

-- _CLOSING_TAG.sub("< /passage", text): the fuel is the number of code points left, and a match
-- takes some of them.
unfoldable pub break_tags_on : ℕ → Text → Text
break_tags_on zero t = t
break_tags_on (suc fuel) [] = []
break_tags_on (suc fuel) (c ∷ t) = elim (after_tag (c ∷ t)) [
  | some rest ↦ str "< /passage" ++ break_tags_on fuel rest
  | none ↦ c ∷ break_tags_on fuel t
]

unfoldable pub break_tags : Text → Text
unfolding break_tags_on
break_tags t = break_tags_on (length t) t

-- One passage, by its number, its file's name and its text.
unfoldable pub passage : ℕ → Text → Text → Text
unfolding attribute break_tags
passage n filename text =
    str "<passage n=\""
    ++ (decimal n
        ++ (str "\" file=\""
            ++ (attribute filename ++ (str "\">\n" ++ (break_tags text ++ str "\n</passage>")))))

-- The passages of hits, by name and text, numbered from n on.
unfoldable pub passages : ℕ → List (Text × Text) → List Text
passages n [] = []
passages n ((filename, text) ∷ rest) = passage n filename text ∷ passages (suc n) rest

-- build_user_message
unfoldable pub build_user_message : Text → List (Text × Text) → Text
unfolding join passages
build_user_message query hits =
    str "Context:\n\n" ++ (join (str "\n\n") (passages 1 hits) ++ (str "\n\nQuestion: " ++ query))
