-- ===== src/Utility/Words.antt =====
-- The words of a string by one pass over its characters, and where the searches of `split` find their
-- ends.
use stdsc.Base.{
  ℕ, suc, ◌<◌, ◌≡◌, refl, sym, ap, ◌∙◌, true, false, not, Bool-cases, inl, inr, List, [], ◌∷◌, ◌++◌,
  append_assoc, append-nil, Option, none, some, arith, length, take, drop,
}
use stdsc.Packet.{Bytes}
use stdsc.Utility.{search, is_in}

-- the word so far, unless it is empty
abbrev flush : Bytes → List Bytes
flush [] = []
flush (c ∷ cs) = (c ∷ cs) ∷ []

-- The words of a string by one pass over its characters: a delimiter ends the word that was begun.
unfoldable pub words : Bytes → Bytes → Bytes → List Bytes
words delims cur [] = flush cur
words delims cur (c ∷ cs) = elim (is_in delims c) [
  | true ↦ flush cur ++ words delims [] cs
  | false ↦ words delims (cur ++ c ∷ []) cs
]

module _ (delims : Bytes) where
  -- where the next word starts
  pub data Start (s : Bytes) : Option ℕ → Type 0 where
    blank : words delims [] s ≡ [] → Start s none
    word_at :
        (j c : ℕ) (cs : Bytes)
        → drop j s ≡ c ∷ cs
        → is_in delims c ≡ false
        → words delims [] s ≡ words delims (c ∷ []) cs
        → Start s (some j)

  -- where a word that was begun stops
  pub data Stop (cur s : Bytes) : Option ℕ → Type 0 where
    whole : words delims cur s ≡ (cur ++ s) ∷ [] → Stop cur s none
    cut :
        (k : ℕ)
        → k < length s
        → words delims cur s ≡ (cur ++ take k s) ∷ words delims [] (drop (suc k) s)
        → Stop cur s (some k)

  Start-delimiter :
      (c : ℕ) (cs : Bytes) {r : Option ℕ}
      → is_in delims c ≡ true
      → Start cs r
      → Start (c ∷ cs) (elim r [ none ↦ none | some k ↦ some (suc k) ])
  unfolding words
  Start-delimiter c cs h (blank e) = blank (rw (h, words) e)
  Start-delimiter c cs h (word_at j d ds e n w) = word_at (suc j) d ds e n (rw (h, words) w)

  pub start : (s : Bytes) → Start s (search (λ c. not (is_in delims c)) s)
  unfolding words
  start [] = blank refl
  start (c ∷ cs) = elim (Bool-cases (is_in delims c)) [
    | inl h ↦ rw h (Start-delimiter c cs h (start cs))
    | inr h ↦ rw h (word_at 0 c cs refl h (rw (h, words) refl))
  ]

  Stop-next :
      (x c : ℕ) (xs cs : Bytes) {r : Option ℕ}
      → is_in delims c ≡ false
      → Stop (x ∷ (xs ++ c ∷ [])) cs r
      → Stop (x ∷ xs) (c ∷ cs) (elim r [ none ↦ none | some k ↦ some (suc k) ])
  unfolding words
  Stop-next x c xs cs h (whole e) =
      whole (rw (h, words) (e ∙ ap (λ t. (x ∷ t) ∷ []) (append_assoc xs (c ∷ []) cs)))
  Stop-next x c xs cs h (cut k l e) = cut (suc k) (omega (arith, l)) (
      rw (h, words)
        (e
          ∙ ap (λ t. (x ∷ t) ∷ words delims [] (drop (suc k) cs))
              (append_assoc xs (c ∷ []) (take k cs))))

  pub stop : (x : ℕ) (xs s : Bytes) → Stop (x ∷ xs) s (search (is_in delims) s)
  unfolding words
  stop x xs [] = whole (ap (λ t. (x ∷ t) ∷ []) (sym (append-nil xs)))
  stop x xs (c ∷ cs) = elim (Bool-cases (is_in delims c)) [
    | inl h ↦ rw h (
        cut 0 (omega arith)
          (rw (h, words) (ap (λ t. (x ∷ t) ∷ words delims [] cs) (sym (append-nil xs)))))
    | inr h ↦ rw h (Stop-next x c xs cs h (stop x (xs ++ c ∷ []) cs))
  ]
