-- ===== src/Leakage/Shared.antt =====
-- What shared_ngrams of evals/leakage.py finds.
use rag_poc.Prelude.{
  ℕ, zero, suc, ◌≤◌, ◌+◌, Text, str, ◌≡◌, ◌↔◌, inl, inr, refl, sym, true, &&-true, List, [], ◌∷◌,
  ◌++◌, map, In, text_eq, text_eq_iff, join, take, drop, length, length-append, ltb, ltb→lt, ltb→ge,
  ◌==◌, ==_iff, Bool-cases, arith,
}
use rag_poc.Leakage.{normalise, ngrams, words_eq, has_gram, common, shared_ngrams}

-- The words g stand one after another in ws.
abbrev pub Occurs : List Text → List Text → Type 0
Occurs g ws = (before after : List Text) × (ws ≡ (before ++ (g ++ after)))

take-append : (g after : List Text) → take (length g) (g ++ after) ≡ g
take-append [] after = refl
take-append (w ∷ g) after = cc (take-append g after)

take-append-drop : (n : ℕ) (ws : List Text) → (take n ws ++ drop n ws) ≡ ws
take-append-drop zero ws = refl
take-append-drop (suc n) [] = refl
take-append-drop (suc n) (w ∷ ws) = cc (take-append-drop n ws)

length-take : (n : ℕ) (ws : List Text) → n ≤ length ws → length (take n ws) ≡ n
length-take zero ws h = refl
length-take (suc n) [] h = absurd (omega (arith, h))
length-take (suc n) (w ∷ ws) h = omega (arith, length-take n ws (omega (arith, h)))

ngrams-In_inv : (n : ℕ) (g ws : List Text) → In g (ngrams n ws) → (length g ≡ n) × Occurs g ws
unfolding ngrams
ngrams-In_inv n g [] m = elim (Bool-cases (n == 0)) [
  | inl e ↦ of_empty ((==_iff n 0).0 e) (rw (e, ngrams) at m)
  | inr e ↦ absurd (rw (e, ngrams) at m)
]
  where
    of_empty : n ≡ 0 → In g ([] ∷ []) → (length g ≡ n) × Occurs g []
    of_empty e (inl is_empty) = (cc (e, is_empty), ([], [], cc is_empty))
    of_empty e (inr h) = absurd h
ngrams-In_inv n g (w ∷ ws) m = elim (Bool-cases (ltb (length (w ∷ ws)) n)) [
  | inl short ↦ absurd (rw (short, ngrams) at m)
  | inr long ↦ of_first (ltb→ge _ _ long) (λ h. ngrams-In_inv n g ws h) (rw (long, ngrams) at m)
]
  where
    of_first :
        n ≤ length (w ∷ ws)
        → (In g (ngrams n ws) → (length g ≡ n) × Occurs g ws)
        → In g (take n (w ∷ ws) ∷ ngrams n ws)
        → (length g ≡ n) × Occurs g (w ∷ ws)
    of_first fits later (inl is_first) = (
      rw is_first (length-take n (w ∷ ws) fits),
      ([], drop n (w ∷ ws), rw is_first (sym (take-append-drop n (w ∷ ws)))),
    )
    of_first fits later (inr h) =
        let (len, (before, after, e)) = later h in (len, (w ∷ before, after, cc e))

nothing_occurs : (g before after : List Text) → [] ≡ (before ++ (g ++ after)) → g ≡ []
nothing_occurs g (b ∷ before) after e = absurd (cc e)
nothing_occurs [] [] after e = refl
nothing_occurs (w ∷ g) [] after e = absurd (cc e)

ngrams-In :
    (n : ℕ) (g ws before after : List Text)
    → length g ≡ n
    → ws ≡ (before ++ (g ++ after))
    → In g (ngrams n ws)
unfolding ngrams
ngrams-In n g [] before after len e =
    let is_empty = nothing_occurs g before after e in
    let n_0 : n ≡ 0 = cc (len, is_empty) in rw ((==_iff n 0).1 n_0, ngrams) (inl is_empty)
ngrams-In n g (w ∷ ws) [] after len e =
    let is_first : take n (w ∷ ws) ≡ g = cc (e, len, take-append g after) in
    let fits : length (w ∷ ws) ≡ length g + length after = cc (e, length-append g after) in
    elim (Bool-cases (ltb (length (w ∷ ws)) n)) [
      | inl short ↦ absurd (omega (arith, ltb→lt _ _ short, fits, len))
      | inr long ↦ rw (long, ngrams) (inl (sym is_first))
    ]
ngrams-In n g (w ∷ ws) (b ∷ before) after len e =
    let later : ws ≡ (before ++ (g ++ after)) = cc e in
    let fits : length ws ≡ length before + (length g + length after) =
      cc (later, length-append before (g ++ after), length-append g after) in
    let found = ngrams-In n g ws before after len later in
    elim (Bool-cases (ltb (length (w ∷ ws)) n)) [
      | inl short ↦ absurd (omega (arith, ltb→lt _ _ short, fits, len))
      | inr long ↦ rw (long, ngrams) (inr found)
    ]

words_eq_iff : (g h : List Text) → (words_eq g h ≡ true) ↔ (g ≡ h)
unfolding words_eq
words_eq_iff [] [] = (λ e. refl, λ e. refl)
words_eq_iff [] (t ∷ ts) = (λ e. absurd (cc e), λ e. absurd (cc e))
words_eq_iff (s ∷ ss) [] = (λ e. absurd (cc e), λ e. absurd (cc e))
words_eq_iff (s ∷ ss) (t ∷ ts) = (
  λ e.
      let (first, rest) = &&-true (text_eq s t) (words_eq ss ts) e in
      cc ((text_eq_iff s t).0 first, (words_eq_iff ss ts).0 rest),
  λ e.
      let first : s ≡ t = cc e in
      let rest : ss ≡ ts = cc e in rw ((text_eq_iff s t).1 first) ((words_eq_iff ss ts).1 rest),
)

has_gram_iff : (g : List Text) (hs : List (List Text)) → (has_gram g hs ≡ true) ↔ In g hs
unfolding has_gram
has_gram_iff g [] = (λ e. absurd (cc e), λ m. absurd m)
has_gram_iff g (h ∷ hs) = elim (Bool-cases (words_eq g h)) [
  | inl e ↦ (λ found. inl ((words_eq_iff g h).0 e), λ m. rw (e, has_gram) refl)
  | inr e ↦ (
    λ found. inr ((has_gram_iff g hs).0 (rw (e, has_gram) at found)),
    λ m. elim m [
      | inl same ↦ absurd (cc (e, (words_eq_iff g h).1 same))
      | inr later ↦ rw (e, has_gram) ((has_gram_iff g hs).1 later)
    ],
  )
]

common_iff : (g : List Text) (gs hs : List (List Text)) → In g (common gs hs) ↔ (In g gs × In g hs)
unfolding common
common_iff g [] hs = (λ m. absurd m, λ (m, m'). absurd m)
common_iff g (k ∷ gs) hs = elim (Bool-cases (has_gram k hs)) [
  | inl e ↦ (
    λ m. elim (rw (e, common) at m) [
      | inl same ↦ (inl same, rw same ((has_gram_iff k hs).0 e))
      | inr later ↦ let (here, there) = (common_iff g gs hs).0 later in (inr here, there)
    ],
    λ (m, there).
        rw (e, common)
          (elim m [
            | inl same ↦ inl same
            | inr later ↦ inr ((common_iff g gs hs).1 (later, there))
          ]),
  )
  | inr e ↦ (
    λ m. let (here, there) = (common_iff g gs hs).0 (rw (e, common) at m) in (inr here, there),
    λ (m, there).
        rw (e, common)
          (elim m [
            | inl same ↦ absurd (cc (e, (has_gram_iff k hs).1 (rw (sym same) there)))
            | inr later ↦ (common_iff g gs hs).1 (later, there)
          ]),
  )
]

In-map_inv :
    {A : Type 0} {B : Type 0} (f : A → B) (b : B) (xs : List A)
    → In b (map f xs)
    → (a : A) × (b ≡ f a) × In a xs
In-map_inv f b [] m = absurd m
In-map_inv f b (x ∷ xs) (inl e) = (x, e, inl refl)
In-map_inv f b (x ∷ xs) (inr m) = let (a, e, later) = In-map_inv f b xs m in (a, e, inr later)

In-map : {A : Type 0} {B : Type 0} (f : A → B) (a : A) (xs : List A) → In a xs → In (f a) (map f xs)
In-map f a [] m = absurd m
In-map f a (x ∷ xs) (inl e) = inl (cc e)
In-map f a (x ∷ xs) (inr m) = inr (In-map f a xs m)

-- A phrase is shared exactly when it is n words, joined by spaces, that stand one after another both
-- in the normalised question and in the normalised document: the check misses no copied run of n
-- words, and reports nothing else.
pub shared_ngrams_exact :
    (lower : Text → Text) (question document : Text) (n : ℕ) (phrase : Text)
    → In phrase (shared_ngrams lower question document n) ↔ (
        (g : List Text) × (phrase ≡ join (str " ") g)
        × (length g ≡ n)
        × Occurs g (normalise lower question)
        × Occurs g (normalise lower document))
unfolding shared_ngrams
shared_ngrams_exact lower question document n phrase =
    let qs = normalise lower question in
    let ds = normalise lower document in
    (
      λ m.
          let (g, is_phrase, found) =
            In-map_inv (join (str " ")) phrase (common (ngrams n qs) (ngrams n ds)) m in
          let (in_question, in_document) = (common_iff g (ngrams n qs) (ngrams n ds)).0 found in
          let (len, occurs) = ngrams-In_inv n g qs in_question in
          (g, is_phrase, len, occurs, (ngrams-In_inv n g ds in_document).1),
      λ (g, is_phrase, len, (b, a, e), (b', a', e')). rw is_phrase (
          In-map (join (str " ")) g _ (
            (common_iff g (ngrams n qs) (ngrams n ds)).1
              (ngrams-In n g qs b a len e, ngrams-In n g ds b' a' len e'))),
    )
