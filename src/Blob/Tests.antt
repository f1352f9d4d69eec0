-- ===== src/Blob/Tests.antt =====
-- The cap of services/rag-service/src/rag/adapters/minio_blob_store.py at concrete streams.
use rag_poc.Prelude.{◌≡◌, refl, ◌↔◌, ◌≤◌, ◌++◌, List, [], ℕ, ◌∷◌, length, ok, err, some}
use rag_poc.Blob.{Stream, ended, part, Act, closed, released, read_parts, get}
use rag_poc.Blob.Cap.{contents, Capped, Failed, too_large, get_exact, get-Failed}

abbrev three : List ℕ
three = 1 ∷ 2 ∷ 3 ∷ []

abbrev two_parts : Stream
two_parts = part (1 ∷ 2 ∷ []) (part (3 ∷ []) ended)

get_exact_example :
    ((get 3 (ok two_parts)).0 ≡ ok three) ↔ ((contents two_parts ≡ some three) × (length three ≤ 3))
get_exact_example = get_exact 3 two_parts three

over : (get 2 (ok two_parts)).0 ≡ err (too_large 2)
unfolding get read_parts
over = refl

get-Failed_example :
    Failed 2 0 two_parts (too_large 2)
    × (acts : List Act) × ((get 2 (ok two_parts)).1 ≡ (acts ++ (closed ∷ (released ∷ []))))
    × Capped 2 0 acts
get-Failed_example = get-Failed 2 two_parts (too_large 2) over
