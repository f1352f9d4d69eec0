-- ===== src/Ingest/Points.antt =====
-- The points that services/rag-service/src/rag/ingest/service.py stores.
use rag_poc.Prelude.{ℕ, suc, Text, ◌≡◌, refl, ap, subst, List, [], ◌∷◌, map, Result, ok, err}
use rag_poc.Failure.{Failure}
use rag_poc.Ingest.{Point, make_points}

module _ {V : Type 0} (hash filename : Text) where
  -- Points of one document, numbered from i on.
  abbrev pub IsNumbered : ℕ → List (Point V) → Type 0
  IsNumbered i [] = Unit
  IsNumbered i (p ∷ ps) =
      ((p.hash ≡ hash) × (p.filename ≡ filename) × (p.chunk_index ≡ i)) × IsNumbered (suc i) ps

  abbrev pub texts : List (Point V) → List Text
  texts ps = map (λ p. p.text) ps

  abbrev pub vectors : List (Point V) → List V
  vectors ps = map (λ p. p.vector) ps

  -- What a list of points says of the chunks and the vectors it was made of.
  pub record IsMadeOf (i : ℕ) (cs : List Text) (vs : List V) (ps : List (Point V)) : Type 0 where
    pub numbered : IsNumbered i ps
    pub texts : texts ps ≡ cs
    pub vectors : vectors ps ≡ vs

  tail :
      (r : Result Failure (List (Point V))) (i : ℕ) (c : Text) (v : V) (cs : List Text)
      (vs : List V) (ps : List (Point V))
      → ((qs : List (Point V)) → r ≡ ok qs → IsMadeOf (suc i) cs vs qs)
      → elim r [
        | ok qs ↦ ok (
            record { hash = hash; filename = filename; chunk_index = i; text = c; vector = v } ∷ qs)
        | err e ↦ err e
      ]
        ≡ ok ps
      → IsMadeOf i (c ∷ cs) (v ∷ vs) ps
  tail (err e) i c v cs vs ps f h = absurd (cc h)
  tail (ok qs) i c v cs vs ps f h =
      let p : Point V = record {
        hash = hash;
        filename = filename;
        chunk_index = i;
        text = c;
        vector = v;
      } in
      let e : (p ∷ qs) ≡ ps = cc h in
      let m : IsMadeOf (suc i) cs vs qs = f qs refl in
      subst (IsMadeOf i (c ∷ cs) (v ∷ vs)) e (record {
        numbered = ((refl, refl, refl), m.numbered);
        texts = ap (λ ts. c ∷ ts) m.texts;
        vectors = ap (λ ws. v ∷ ws) m.vectors;
      })

  -- When points are made, there is one for each chunk and one for each vector, in their order, with
  -- the document's hash and filename, and numbered one after another.
  pub make_points_lem :
      (i : ℕ) (cs : List Text) (vs : List V) (ps : List (Point V))
      → make_points hash filename i cs vs ≡ ok ps
      → IsMadeOf i cs vs ps
  unfolding make_points
  make_points_lem i [] [] [] h = record { numbered = tt; texts = refl; vectors = refl }
  make_points_lem i [] [] (p ∷ ps) h = absurd (cc h)
  make_points_lem i [] (v ∷ vs) ps h = absurd (cc h)
  make_points_lem i (c ∷ cs) [] ps h = absurd (cc h)
  make_points_lem i (c ∷ cs) (v ∷ vs) ps h =
      tail (make_points hash filename (suc i) cs vs) i c v cs vs ps (make_points_lem (suc i) cs vs)
        h
