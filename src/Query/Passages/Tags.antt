-- ===== src/Query/Passages/Tags.antt =====
-- The text of a passage in the user message of services/rag-service/src/rag/query/service.py.
use rag_poc.Prelude.{
  ℕ, zero, suc, ◌≤◌, Text, str, ◌≡◌, refl, ap, inl, inr, false, ◌&&◌, none, some, [], ◌∷◌, ◌++◌,
  All, length, ◌==◌, ==_iff, is_space, Bool-cases, Option-cases, arith,
}
use rag_poc.Query.Passages.{
  letter_matches, after_letters, after_spaces, after_tag, break_tags_on, break_tags,
}

-- No closing tag starts at any place of the text.
pub data HasNoTag : Text → Type 0 where
  empty : HasNoTag []
  here : (c : ℕ) (t : Text) → after_tag (c ∷ t) ≡ none → HasNoTag t → HasNoTag (c ∷ t)

-- t is u, with text from a `<` on put in the place of text from a `<` on.
data SameUpTo : Text → Text → Type 0 where
  both_end : SameUpTo [] []
  both_open : (t u : Text) → SameUpTo (b'<' ∷ t) (b'<' ∷ u)
  both_go : (c : ℕ) (t u : Text) → SameUpTo t u → SameUpTo (c ∷ t) (c ∷ u)

same : (t : Text) → SameUpTo t t
same [] = both_end
same (c ∷ t) = both_go c t t (same t)

abbrev NoOpen : Text → Type 0
NoOpen [] = Unit
NoOpen (p ∷ ps) = (letter_matches p b'<' ≡ false) × NoOpen ps

passage-NoOpen : NoOpen (str "passage")
unfolding letter_matches
passage-NoOpen = (refl, (refl, (refl, (refl, (refl, (refl, (refl, tt)))))))

-- Text that does not go on with the pattern's letters still does not.
after_letters-same :
    (ps t u : Text)
    → NoOpen ps
    → SameUpTo t u
    → after_letters ps u ≡ none
    → after_letters ps t ≡ none
unfolding after_letters
after_letters-same [] t u o s h = absurd (cc h)
after_letters-same (p ∷ ps) _ _ o both_end h = refl
after_letters-same (p ∷ ps) _ _ o (both_open t u) h = rw o.0 refl
after_letters-same (p ∷ ps) _ _ o (both_go c t u s) h = elim (Bool-cases (letter_matches p c)) [
  | inl e ↦ rw e (after_letters-same ps t u o.1 s (rw e at h))
  | inr e ↦ rw e refl
]

after_spaces-same : (t u : Text) → SameUpTo t u → after_spaces u ≡ none → after_spaces t ≡ none
unfolding after_spaces is_space
after_spaces-same _ _ both_end h = refl
after_spaces-same _ _ (both_open t u) h =
    after_letters-same (str "passage") _ _ passage-NoOpen (both_open t u) h
after_spaces-same _ _ (both_go c t u s) h = elim (Bool-cases (is_space c)) [
  | inl e ↦ rw e (after_spaces-same t u s (rw e at h))
  | inr e ↦
      rw e (after_letters-same (str "passage") _ _ passage-NoOpen (both_go c t u s) (rw e at h))
]

after_tag-same :
    (c : ℕ) (t u : Text) → SameUpTo t u → after_tag (c ∷ u) ≡ none → after_tag (c ∷ t) ≡ none
unfolding after_tag
after_tag-same c _ _ both_end h = refl
after_tag-same c _ _ (both_open t u) h = elim (Bool-cases (c == b'<')) [
  | inl e ↦ rw e refl
  | inr e ↦ rw e refl
]
after_tag-same c _ _ (both_go d t u s) h = elim (Bool-cases (c == b'<' && d == b'/')) [
  | inl e ↦ rw e (after_spaces-same t u s (rw e at h))
  | inr e ↦ rw e refl
]

-- A match begins with `<` and takes some of the text.
after_tag-opens : (c : ℕ) (t rest : Text) → after_tag (c ∷ t) ≡ some rest → c ≡ b'<'
unfolding after_tag
after_tag-opens c [] rest h = absurd (cc h)
after_tag-opens c (d ∷ t) rest h = elim (Bool-cases (c == b'<')) [
  | inl e ↦ (==_iff c b'<').0 e
  | inr e ↦ absurd (cc (none_first c d t e h))
]
  where
    none_first :
        (c d : ℕ) (t : Text)
        → (c == b'<') ≡ false
        → after_tag (c ∷ d ∷ t) ≡ some rest
        → none ≡ some rest
    none_first c d t e h = rw e at h

length-after_letters : (ps t rest : Text) → after_letters ps t ≡ some rest → length rest ≤ length t
unfolding after_letters
length-after_letters [] t rest h = let e : t ≡ rest = cc h in omega (arith, ap length e)
length-after_letters (p ∷ ps) [] rest h = absurd (cc h)
length-after_letters (p ∷ ps) (c ∷ t) rest h = elim (Bool-cases (letter_matches p c)) [
  | inl e ↦ omega (arith, length-after_letters ps t rest (rw e at h))
  | inr e ↦ absurd (cc (rw e at h))
]

length-after_spaces : (t rest : Text) → after_spaces t ≡ some rest → length rest ≤ length t
unfolding after_spaces
length-after_spaces [] rest h = absurd (cc h)
length-after_spaces (c ∷ t) rest h = elim (Bool-cases (is_space c)) [
  | inl e ↦ omega (arith, length-after_spaces t rest (rw e at h))
  | inr e ↦ length-after_letters (str "passage") (c ∷ t) rest (rw e at h)
]

length-after_tag : (c : ℕ) (t rest : Text) → after_tag (c ∷ t) ≡ some rest → length rest ≤ length t
unfolding after_tag
length-after_tag c [] rest h = absurd (cc h)
length-after_tag c (d ∷ t) rest h = elim (Bool-cases (c == b'<' && d == b'/')) [
  | inl e ↦ omega (arith, length-after_spaces t rest (rw e at h))
  | inr e ↦ absurd (cc (rw e at h))
]

open_and_closed : (c : ℕ) → (c == b'<') ≡ false → c ≡ b'<' → ⊥
open_and_closed c h e = cc (h, (==_iff c b'<').1 e)

-- Text without `<` in front of a text with no tag makes no tag.
prefix_HasNoTag : (s t : Text) → All (λ c. (c == b'<') ≡ false) s → HasNoTag t → HasNoTag (s ++ t)
prefix_HasNoTag [] t h k = k
prefix_HasNoTag (c ∷ s) t h k = here c (s ++ t) (closed (s ++ t)) (prefix_HasNoTag s t h.1 k)
  where
    closed : (u : Text) → after_tag (c ∷ u) ≡ none
    closed u = elim (Option-cases (after_tag (c ∷ u))) [
      | inl e ↦ e
      | inr (rest, e) ↦ absurd (open_and_closed c h.0 (after_tag-opens c u rest e))
    ]

broken-HasNoTag : (t : Text) → HasNoTag t → HasNoTag (str "< /passage" ++ t)
unfolding after_tag
broken-HasNoTag t h = here b'<' _ refl (
    prefix_HasNoTag (str " /passage") t
      (refl, (refl, (refl, (refl, (refl, (refl, (refl, (refl, (refl, tt))))))))) h)

break_tags_on-same : (fuel : ℕ) (t : Text) → SameUpTo (break_tags_on fuel t) t
unfolding break_tags_on
break_tags_on-same zero t = same t
break_tags_on-same (suc fuel) [] = both_end
break_tags_on-same (suc fuel) (c ∷ t) = elim (Option-cases (after_tag (c ∷ t))) [
  | inl e ↦ rw (e, break_tags_on) (both_go c _ _ (break_tags_on-same fuel t))
  | inr (rest, e) ↦ rw (e, break_tags_on, after_tag-opens c t rest e) (both_open _ _)
]

break_tags_on-HasNoTag : (fuel : ℕ) (t : Text) → length t ≤ fuel → HasNoTag (break_tags_on fuel t)
unfolding break_tags_on
break_tags_on-HasNoTag zero [] h = empty
break_tags_on-HasNoTag zero (c ∷ t) h = absurd (omega arith)
break_tags_on-HasNoTag (suc fuel) [] h = empty
break_tags_on-HasNoTag (suc fuel) (c ∷ t) h = elim (Option-cases (after_tag (c ∷ t))) [
  | inl e ↦
      rw (e, break_tags_on)
        (here c _ (after_tag-same c _ t (break_tags_on-same fuel t) e)
          (break_tags_on-HasNoTag fuel t (omega arith)))
  | inr (rest, e) ↦
      rw (e, break_tags_on)
        (broken-HasNoTag _
          (break_tags_on-HasNoTag fuel rest (omega (arith, length-after_tag c t rest e))))
]

-- Whatever the text of a chunk is, in the text that stands in its passage no closing tag
-- `</passage` starts anywhere, in any case and with any white space after the slash.
pub break_tags-HasNoTag : (t : Text) → HasNoTag (break_tags t)
unfolding break_tags
break_tags-HasNoTag t = break_tags_on-HasNoTag (length t) t (omega arith)
