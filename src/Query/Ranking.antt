-- ===== src/Query/Ranking.antt =====
-- The order of the hits of services/rag-service/src/rag/query/service.py.
use rag_poc.Prelude.{
  Text, ◌≡◌, inl, inr, subst, List, [], ◌∷◌, Option, none, some, Bool, true, false, Bool-cases, ok,
}
use mathlib.Core.List.{Perm}
use mathlib.Core.List.Perm
use rag_poc.Exec.{pure}
use rag_poc.Exec.Inversion.{bind-eq-ok, catch-raise-eq-ok}
use rag_poc.Query.{Hit, Ports, QuerySettings, insert, ranked, validate, retrieve, as_query_error}

module _ {S : Type 0} (lt : S → S → Bool) where
  -- No hit scores less than the next one.
  abbrev pub IsDescending : List (Hit S) → Type 0
  IsDescending [] = Unit
  IsDescending (h ∷ []) = Unit
  IsDescending (h ∷ (k ∷ ks)) = (lt h.score k.score ≡ false) × IsDescending (k ∷ ks)

  insert-Perm : (h : Hit S) (ks : List (Hit S)) → Perm (h ∷ ks) (insert lt h ks)
  unfolding insert
  insert-Perm h [] = Perm.refl _
  insert-Perm h (k ∷ ks) = elim (Bool-cases (lt h.score k.score)) [
    | inl e ↦ rw e (Perm.trans (Perm.swap k h ks) (Perm.cons k (insert-Perm h ks)))
    | inr e ↦ rw e (Perm.refl _)
  ]

  ranked-Perm : (hs : List (Hit S)) → Perm hs (ranked lt hs)
  unfolding ranked
  ranked-Perm [] = Perm.refl _
  ranked-Perm (h ∷ hs) = Perm.trans (Perm.cons h (ranked-Perm hs)) (insert-Perm h _)

  module _ (asym : (a b : S) → lt a b ≡ true → lt b a ≡ false) where
    insert-below :
        (k h : Hit S) (ks : List (Hit S))
        → lt k.score h.score ≡ false
        → IsDescending (k ∷ ks)
        → IsDescending (k ∷ insert lt h ks)
    unfolding insert
    insert-below k h [] e d = (e, tt)
    insert-below k h (j ∷ js) e d = elim (Bool-cases (lt h.score j.score)) [
      | inl p ↦ rw p (d.0, insert-below j h js (asym _ _ p) d.1)
      | inr p ↦ rw p (e, (p, d.1))
    ]

    insert-IsDescending :
        (h : Hit S) (ks : List (Hit S)) → IsDescending ks → IsDescending (insert lt h ks)
    unfolding insert
    insert-IsDescending h [] d = tt
    insert-IsDescending h (k ∷ ks) d = elim (Bool-cases (lt h.score k.score)) [
      | inl p ↦ rw p (insert-below k h ks (asym _ _ p) d)
      | inr p ↦ rw p (p, d)
    ]

    ranked-IsDescending : (hs : List (Hit S)) → IsDescending (ranked lt hs)
    unfolding ranked
    ranked-IsDescending [] = tt
    ranked-IsDescending (h ∷ hs) = insert-IsDescending h _ (ranked-IsDescending hs)

module _ (ports : Ports) (settings : QuerySettings ports.Score) where
  open ports use {World, Vector, Score}

  -- The hits are what one search found for the query's vector, reordered from the best score on.
  pub record IsRetrieved (query : Text) (document_ids : List Text) (min_score : Option Score)
      (hits : List (Hit Score)) : Type 0 where
    pub descending : IsDescending ports.lt hits
    pub vector : Vector
    pub asked : (w : World) × ((ports.embed_query query w).0 ≡ ok vector)
    pub found : List (Hit Score)
    pub searched :
        (w : World) × ((ports.search vector settings.top_k
            (elim min_score [ none ↦ settings.min_score | some s ↦ s ])
            document_ids
            w).0
          ≡ ok found)
    pub reordered : Perm found hits

  -- If no two scores are each less than the other, then the hits that retrieve returns are the hits
  -- of one search with the query's own vector, with the given threshold or else the configured one:
  -- all of them, none twice, and from the best score on.
  pub retrieve-IsRetrieved :
      (query : Text) (document_ids : List Text) (min_score : Option Score) (w : World)
      (hits : List (Hit Score))
      → ((a b : Score) → ports.lt a b ≡ true → ports.lt b a ≡ false)
      → (retrieve ports settings query document_ids min_score w).0 ≡ ok hits
      → IsRetrieved query document_ids min_score hits
  unfolding retrieve pure
  retrieve-IsRetrieved query document_ids min_score w hits asym h =
      let (u, v, k) = bind-eq-ok (validate ports settings query document_ids) _ w hits h in
      let (found, c, r) = bind-eq-ok _ _ _ hits k in
      let c' = catch-raise-eq-ok _ as_query_error _ found c in
      let (vector, e, s) = bind-eq-ok (ports.embed_query query) _ _ found c' in
      let same : ranked ports.lt found ≡ hits = cc r in
      record {
        descending = subst (IsDescending ports.lt) same (ranked-IsDescending ports.lt asym found);
        vector = vector;
        asked = (_, e);
        found = found;
        searched = (_, s);
        reordered = subst (Perm found) same (ranked-Perm ports.lt found);
      }
