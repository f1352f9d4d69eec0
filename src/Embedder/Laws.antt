-- ===== src/Embedder/Laws.antt =====
-- What services/rag-service/src/rag/adapters/ollama_embedder.py promises of its vectors and errors.
use rag_poc.Prelude.{
  ℕ, Text, str, ◌≡◌, ◌↔◌, inl, inr, refl, List, [], ◌∷◌, length, ◌==◌, ==_iff, Bool-cases, Result,
  ok, err, arith,
}
use rag_poc.Value.{pos, negsuc}
use rag_poc.Embedder.{
  Client, ClientError, connection_error, http_error, response_error, other, OllamaEmbedder,
  EmbedError, model_not_available, counted, as_unavailable, first_vector, dimension_of,
  as_missing_model, embed, embed_documents, dimension, or_failure, documents_port,
}

or_failure-ok_inv : {A : Type 0} (r : Result EmbedError A) (a : A) → or_failure r ≡ ok a → r ≡ ok a
or_failure-ok_inv (ok b) a h = cc h
or_failure-ok_inv (err e) a h = absurd (cc h)

counted-ok_inv :
    {F : Type 0} (n : ℕ) (r : Result ClientError (List (List F))) (vs : List (List F))
    → counted n r ≡ ok vs
    → (r ≡ ok vs) × (length vs ≡ n)
unfolding counted
counted-ok_inv n (err e) vs h = absurd (cc h)
counted-ok_inv n (ok ws) vs h = elim (Bool-cases (length ws == n)) [
  | inl e ↦
      let same : ws ≡ vs = cc (rw e at h) in
      let len = (==_iff (length ws) n).0 e in (cc same, cc (same, len))
  | inr e ↦ absurd (cc (rw e at h))
]

-- The model is missing exactly where the cause is an answer with status 404.
as_missing_model-not_available_inv :
    (model m : Text) (e : ClientError)
    → as_missing_model model (as_unavailable e) ≡ model_not_available m
    → (e ≡ response_error (pos 404)) × (model ≡ m)
unfolding as_missing_model as_unavailable
as_missing_model-not_available_inv model m (connection_error name) h = absurd (cc h)
as_missing_model-not_available_inv model m (http_error name) h = absurd (cc h)
as_missing_model-not_available_inv model m (other e) h = absurd (cc h)
as_missing_model-not_available_inv model m (response_error (negsuc n)) h = absurd (cc h)
as_missing_model-not_available_inv model m (response_error (pos n)) h =
    elim (Bool-cases (n == 404)) [
      | inl e ↦ (cc ((==_iff n 404).0 e), cc (rw e at h))
      | inr e ↦ absurd (cc (rw e at h))
    ]

module _ {F : Type 0} (model : Text) where
  -- The dimension that the answer to one probe gives.
  measured : Result ClientError (List (List F)) → Result EmbedError ℕ
  unfolding counted
  measured r = dimension_of model (first_vector (counted 1 r))

  measured-ok_inv :
      (r : Result ClientError (List (List F))) (d : ℕ)
      → measured r ≡ ok d
      → (v : List F) × (r ≡ ok (v ∷ [])) × (length v ≡ d)
  unfolding measured
  measured-ok_inv (err e) d h = absurd (cc h)
  measured-ok_inv (ok vs) d h = elim (Bool-cases (length vs == 1)) [
    | inl e ↦
        let (v, is_one, len) = one vs ((==_iff (length vs) 1).0 e) (rw e at h) in
        (v, cc is_one, len)
    | inr e ↦ absurd (cc (rw e at h))
  ]
    where
      one :
          (vs : List (List F))
          → length vs ≡ 1
          → dimension_of model (first_vector (ok vs)) ≡ ok d
          → (v : List F) × (vs ≡ (v ∷ [])) × (length v ≡ d)
      one [] l g = absurd (cc g)
      one (v ∷ []) l g = (v, refl, cc g)
      one (v ∷ (u ∷ vs)) l g = absurd (omega (arith, l))

  measured-missing_inv :
      (r : Result ClientError (List (List F))) (m : Text)
      → measured r ≡ err (model_not_available m)
      → (r ≡ err (response_error (pos 404))) × (model ≡ m)
  unfolding measured as_missing_model
  measured-missing_inv (err e) m h =
      let (same, is_model) = as_missing_model-not_available_inv model m e (cc h) in
      (cc same, is_model)
  measured-missing_inv (ok vs) m h = elim (Bool-cases (length vs == 1)) [
    | inl e ↦ found vs (rw e at h)
    | inr e ↦ absurd (cc (rw e at h))
  ]
    where
      found :
          (vs : List (List F))
          → dimension_of model (first_vector (ok vs)) ≡ err (model_not_available m)
          → (ok vs ≡ err (response_error (pos 404))) × (model ≡ m)
      found [] g = absurd (cc g)
      found (v ∷ vs) g = absurd (cc g)

module _ {W F : Type 0} (client : Client W F) (embedder : OllamaEmbedder) where
  -- The answer to the probe.
  abbrev pub probe : W → Result ClientError (List (List F))
  probe w = (client.embed embedder.model (str "dimension probe" ∷ []) w).0

  -- The dimension is that of the one vector that answers the probe, and the model is reported
  -- missing exactly when the answer is an error with status 404.
  pub dimension_exact :
      (w : W)
      → ((d : ℕ)
          → ((dimension client embedder w).0 ≡ ok d)
            ↔ ((v : List F) × (probe w ≡ ok (v ∷ [])) × (length v ≡ d)))
        × ((m : Text)
            → ((dimension client embedder w).0 ≡ err (model_not_available m))
              ↔ ((probe w ≡ err (response_error (pos 404))) × (embedder.model ≡ m)))
  unfolding dimension embed measured
  dimension_exact w = (
    λ d. (
      λ h. measured-ok_inv embedder.model (probe w) d h,
      λ (v, answer, len). rw answer (one_measured v d len),
    ),
    λ m. (
      λ h. measured-missing_inv embedder.model (probe w) m h,
      λ (answer, is_model). rw answer (missing_measured m is_model),
    ),
  )
    where
      one_measured :
          (v : List F) (d : ℕ) → length v ≡ d → measured embedder.model (ok (v ∷ [])) ≡ ok d
      one_measured v d len = cc len

      missing_measured :
          (m : Text)
          → embedder.model ≡ m
          → measured {F = F} embedder.model (err (response_error (pos 404)))
            ≡ err (model_not_available m)
      missing_measured m is_model = cc is_model

  -- The vectors of the port are as many as the texts, and an empty list makes no call.
  pub documents_port-Counts :
      (texts : List Text) (w : W) (vectors : List (List F))
      → (documents_port client embedder texts w).0 ≡ ok vectors
      → length vectors ≡ length texts
  unfolding documents_port embed_documents embed
  documents_port-Counts [] w vectors h = cc h
  documents_port-Counts (t ∷ ts) w vectors h =
      (counted-ok_inv (length (t ∷ ts)) (client.embed embedder.model (t ∷ ts) w).0 vectors
        (or_failure-ok_inv _ vectors h)).1
