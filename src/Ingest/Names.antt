-- ===== src/Ingest/Names.antt =====
-- `extension` of services/rag-service/src/rag/ports.py, with os.path.splitext of POSIX written out,
-- and the Markdown test of ingest/chunking.py. str.lower is a parameter.
use rag_poc.Prelude.{ℕ, Text, str, Bool, Option, none, some, [], ◌∷◌, text_eq, ◌==◌, if◌then◌else◌}

-- The text from the last code point c on.
from_last : ℕ → Text → Option Text
from_last c [] = none
from_last c (x ∷ t) = elim (from_last c t) [
  | some s ↦ some s
  | none ↦ if x == c then some (x ∷ t) else none
]

-- os.path.basename
basename : Text → Text
unfolding from_last
basename t = elim (from_last b'/' t) [ none ↦ t | some [] ↦ [] | some (x ∷ s) ↦ s ]

without_dots : Text → Text
without_dots [] = []
without_dots (x ∷ t) = if x == b'.' then without_dots t else x ∷ t

-- os.path.splitext(filename)[1]: leading dots of the base name start no extension.
unfoldable pub splitext : Text → Text
unfolding basename without_dots from_last
splitext t = elim (from_last b'.' (without_dots (basename t))) [ none ↦ [] | some s ↦ s ]

module _ (lower : Text → Text) where
  unfoldable pub extension : Text → Text
  unfolding splitext
  extension filename = lower (splitext filename)

  -- extension.lower() == ".md"
  unfoldable pub is_markdown : Text → Bool
  is_markdown ext = text_eq (lower ext) (str ".md")
