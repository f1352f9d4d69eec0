-- ===== src/Query/Passages/Attribute.antt =====
-- A file name in the user message of services/rag-service/src/rag/query/service.py.
use rag_poc.Prelude.{
  join, ℕ, Text, str, ◌≡◌, refl, ◌⊎◌, inl, inr, Bool, true, false, List, [], ◌∷◌, ◌++◌, All,
  is_space, Bool-cases,
}
use rag_poc.Query.Passages.{is_markup, translate, add_char, scan_words, attribute}

-- A code point that cannot end an attribute or a line.
pub record IsPlain (c : ℕ) : Type 0 where
  pub no_markup : is_markup c ≡ false
  pub space : (is_space c ≡ false) ⊎ (c ≡ b' ')

blank : is_markup b' ' ≡ false
unfolding is_markup
blank = refl

translate-plain : (t : Text) → All (λ c. is_markup c ≡ false) (translate t)
unfolding translate
translate-plain [] = tt
translate-plain (c ∷ t) = elim (Bool-cases (is_markup c)) [
  | inl e ↦ rw e (blank, translate-plain t)
  | inr e ↦ rw e (e, translate-plain t)
]

added :
    (c : ℕ) (s : Bool × List Text)
    → is_markup c ≡ false
    → All (All IsPlain) s.1
    → All (All IsPlain) (add_char c s).1
added c (o, ws) m k = elim (Bool-cases (is_space c)) [
  | inl e ↦ space o ws k e
  | inr e ↦ other o ws k e
]
  where
    space :
        (o : Bool) (ws : List Text)
        → All (All IsPlain) ws
        → is_space c ≡ true
        → All (All IsPlain) (add_char c (o, ws)).1
    space true [] k e = rw e tt
    space false [] k e = rw e tt
    space true (w ∷ ws) k e = rw e k
    space false (w ∷ ws) k e = rw e k

    other :
        (o : Bool) (ws : List Text)
        → All (All IsPlain) ws
        → is_space c ≡ false
        → All (All IsPlain) (add_char c (o, ws)).1
    other true [] k e = rw e ((record { no_markup = m; space = inl e }, tt), tt)
    other false [] k e = rw e ((record { no_markup = m; space = inl e }, tt), tt)
    other true (w ∷ ws) k e = rw e ((record { no_markup = m; space = inl e }, k.0), k.1)
    other false (w ∷ ws) k e = rw e ((record { no_markup = m; space = inl e }, tt), k)

scan_words-IsPlain :
    (t : Text) → All (λ c. is_markup c ≡ false) t → All (All IsPlain) (scan_words t).1
unfolding scan_words
scan_words-IsPlain [] h = tt
scan_words-IsPlain (c ∷ t) h = added c (scan_words t) h.0 (scan_words-IsPlain t h.1)

All-append : (s t : Text) → All IsPlain s → All IsPlain t → All IsPlain (s ++ t)
All-append [] t h k = k
All-append (c ∷ s) t h k = (h.0, All-append s t h.1 k)

join-IsPlain : (ws : List Text) → All (All IsPlain) ws → All IsPlain (join (str " ") ws)
unfolding join
join-IsPlain [] h = tt
join-IsPlain (w ∷ []) h = h.0
join-IsPlain (w ∷ (v ∷ ws)) h =
    All-append w _ h.0 (record { no_markup = blank; space = inr refl }, join-IsPlain (v ∷ ws) h.1)

-- A file name in a passage's header holds no quote and no angle bracket, and of all white space only
-- the blank: so it ends neither its attribute nor its line.
pub attribute-IsPlain : (value : Text) → All IsPlain (attribute value)
unfolding attribute
attribute-IsPlain value = join-IsPlain _ (scan_words-IsPlain _ (translate-plain value))
