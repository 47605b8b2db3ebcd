-- ===== src/Utility/Splitting.antt =====
-- What `split` makes of a string, whatever its delimiters.
use stdsc.Base.{
  ℕ, zero, suc, ◌+◌, ◌-◌, ◌<◌, ◌≤◌, ◌≡◌, refl, sym, ap, ◌∙◌, false, not, List, [], ◌∷◌, ◌++◌,
  append_assoc, append-nil, Option, none, some, arith, lt→ltb, length, length-drop, take, drop,
  drop_split,
}
use stdsc.Exec.{ok}
use stdsc.Packet.{Bytes}
use stdsc.Utility.{search, is_in, or_size, find_first_of, find_first_not_of, split_loop, split}
use stdsc.Utility.Words.{words, Start, blank, word_at, start, Stop, whole, cut, stop}

module _ (str delims : Bytes) where
  -- the round that starts from position i
  from : ℕ → Option ℕ → Option ℕ
  from i r = elim r [ none ↦ none | some k ↦ some (i + k) ]

  drop_past : (i : ℕ) → length str ≤ i → drop i str ≡ []
  drop_past i h = empty (drop i str) (omega (arith, length-drop i str, h))
    where
      empty : (s : Bytes) → length s ≡ 0 → s ≡ []
      empty [] e = refl
      empty (c ∷ cs) e = absurd (omega (arith, e))

  drop_on : (i k : ℕ) → drop (i + k) str ≡ drop k (drop i str)
  drop_on i k =
      let e : i + k - i ≡ k = omega arith in
      sym (drop_split i (i + k) str (omega arith)) ∙ ap (λ n. drop n (drop i str)) e

  take_all : (n : ℕ) (s : Bytes) → n ≡ length s → take n s ≡ s
  take_all zero [] e = refl
  take_all zero (c ∷ cs) e = absurd (omega (arith, e))
  take_all (suc n) [] e = refl
  take_all (suc n) (c ∷ cs) e = ap (λ t. c ∷ t) (take_all n cs (omega (arith, e)))

  -- where the word at a position ends, in the words of `split`
  next_index : ℕ → ℕ
  next_index index = or_size (find_first_of delims str index) (length str)

  loop_round :
      (f index : ℕ) (vec_str : List Bytes)
      → index < length str
      → split_loop (suc f) str delims (some index) vec_str
        ≡ split_loop f str delims
            (find_first_not_of delims str (next_index index + 1))
            (vec_str ++ take (next_index index - index) (drop index str) ∷ [])
  unfolding split_loop next_index
  loop_round f index vec_str h = rw (lt→ltb index (length str) h) refl

  one_further : Option ℕ → Option ℕ
  one_further r = elim r [ none ↦ none | some k ↦ some (suc k) ]

  search_next :
      (c : ℕ) (cs : Bytes)
      → is_in delims c ≡ false
      → search (is_in delims) (c ∷ cs) ≡ one_further (search (is_in delims) cs)
  unfolding one_further
  search_next c cs n = rw n refl

  from_further : (index : ℕ) (r : Option ℕ) → from index (one_further r) ≡ from (index + 1) r
  unfolding from one_further
  from_further index none = refl
  from_further index (some k) = let e : index + suc k ≡ index + 1 + k = omega arith in rw e refl

  -- where the word c ∷ cs at a position ends
  next_index_lem :
      (index c : ℕ) (cs : Bytes)
      → drop index str ≡ c ∷ cs
      → is_in delims c ≡ false
      → next_index index ≡ or_size (from (index + 1) (search (is_in delims) cs)) (length str)
  unfolding next_index find_first_of from
  next_index_lem index c cs e n =
      ap (λ t. or_size (from index (search (is_in delims) t)) (length str)) e
      ∙ ap (λ r. or_size (from index r) (length str)) (search_next c cs n)
      ∙ ap (λ r. or_size r (length str)) (from_further index (search (is_in delims) cs))

  -- what is left to do from a position on
  Splits : ℕ → ℕ → List Bytes → Type 0
  Splits f i vec_str =
      split_loop f str delims (find_first_not_of delims str i) vec_str
      ≡ ok (vec_str ++ words delims [] (drop i str))

  split_loop-none :
      (f : ℕ) (vec_str : List Bytes) → split_loop f str delims none vec_str ≡ ok vec_str
  unfolding split_loop
  split_loop-none zero vec_str = refl
  split_loop-none (suc f) vec_str = refl

  Splits-past : (f i : ℕ) (vec_str : List Bytes) → length str ≤ i → Splits f i vec_str
  unfolding Splits find_first_not_of words from
  Splits-past f i vec_str h =
      ap (λ t. split_loop f str delims (from i (search (λ c. not (is_in delims c)) t)) vec_str)
        (drop_past i h)
      ∙ split_loop-none f vec_str
      ∙ ap ok (sym (append-nil vec_str))
      ∙ ap (λ t. ok (vec_str ++ words delims [] t)) (sym (drop_past i h))

  cut_size :
      (index k : ℕ)
      → index + 1 + k < length str
      → or_size (some (index + 1 + k)) (length str) ≡ index + suc k
  cut_size index k h = ground (arith, h)

  index-or_size :
      (index : ℕ) (r : Option ℕ)
      → index < length str
      → index < or_size (from (index + 1) r) (length str)
  unfolding from
  index-or_size index none h = h
  index-or_size index (some k) h = ground (arith, h)

  -- The word c ∷ cs at a position, cut at `stops`, and the words after it are those of the one pass.
  word_cut :
      (index c stops : ℕ) (cs : Bytes) (r : Option ℕ)
      → drop index str ≡ c ∷ cs
      → index < length str
      → stops ≡ or_size (from (index + 1) r) (length str)
      → Stop delims (c ∷ []) cs r
      → take (stops - index) (drop index str) ∷ words delims [] (drop (stops + 1) str)
        ≡ words delims (c ∷ []) cs
  unfolding words from
  word_cut index c stops cs none e l at (whole w) =
      let size : stops - index ≡ length (c ∷ cs) =
        omega (arith, at, ap length e, length-drop index str) in
      ap (λ t. take (stops - index) t ∷ words delims [] (drop (stops + 1) str)) e
      ∙ ap (λ t. t ∷ words delims [] (drop (stops + 1) str))
          (take_all (stops - index) (c ∷ cs) size)
      ∙ ap (λ t. (c ∷ cs) ∷ words delims [] t) (drop_past (stops + 1) (omega (arith, at)))
      ∙ sym w
  word_cut index c stops cs (some k) e l at (cut _ m w) =
      let inside : index + 1 + k < length str =
        omega (arith, m, ap length e, length-drop index str) in
      let stop_at : stops ≡ index + suc k = at ∙ cut_size index k inside in
      let size : stops - index ≡ suc k = omega (arith, stop_at) in
      let past : stops + 1 ≡ index + suc (suc k) = omega (arith, stop_at) in
      ap (λ t. take (stops - index) t ∷ words delims [] (drop (stops + 1) str)) e
      ∙ ap (λ n. take n (c ∷ cs) ∷ words delims [] (drop (stops + 1) str)) size
      ∙ ap (λ n. take (suc k) (c ∷ cs) ∷ words delims [] (drop n str)) past
      ∙ ap (λ t. take (suc k) (c ∷ cs) ∷ words delims [] t)
          (drop_on index (suc (suc k)) ∙ ap (drop (suc (suc k))) e)
      ∙ sym w

  word_round :
      (f index c : ℕ) (cs : Bytes) (vec_str : List Bytes)
      → drop index str ≡ c ∷ cs
      → is_in delims c ≡ false
      → ((i : ℕ) (vec : List Bytes) → index < i → Splits f i vec)
      → split_loop (suc f) str delims (some index) vec_str
        ≡ ok (vec_str ++ words delims (c ∷ []) cs)
  unfolding Splits
  word_round f index c cs vec_str e n next =
      let inside : index < length str = omega (arith, ap length e, length-drop index str) in
      let stops = next_index index in
      let piece = take (stops - index) (drop index str) in
      let later : index < stops + 1 = omega (
        arith,
        next_index_lem index c cs e n,
        index-or_size index (search (is_in delims) cs) inside,
      ) in
      loop_round f index vec_str inside
      ∙ next (stops + 1) (vec_str ++ piece ∷ []) later
      ∙ ap ok (append_assoc vec_str (piece ∷ []) (words delims [] (drop (stops + 1) str)))
      ∙ ap (λ t. ok (vec_str ++ t))
          (word_cut index c stops cs (search (is_in delims) cs) e inside
            (next_index_lem index c cs e n) (stop delims c [] cs))

  start_round :
      (f i : ℕ) (vec_str : List Bytes) (r : Option ℕ)
      → Start delims (drop i str) r
      → ((i' : ℕ) (vec : List Bytes) → i < i' → Splits f i' vec)
      → split_loop (suc f) str delims (from i r) vec_str
        ≡ ok (vec_str ++ words delims [] (drop i str))
  unfolding from
  start_round f i vec_str none (blank e) next =
      split_loop-none (suc f) vec_str
      ∙ ap ok (sym (append-nil vec_str))
      ∙ ap (λ t. ok (vec_str ++ t)) (sym e)
  start_round f i vec_str (some j) (word_at _ c cs e n w) next =
      word_round f (i + j) c cs vec_str (drop_on i j ∙ e) n
        (λ i' vec l. next i' vec (omega (arith, l)))
      ∙ ap (λ t. ok (vec_str ++ t)) (sym w)

  split_from : (f i : ℕ) (vec_str : List Bytes) → length str ≤ i + f → Splits f i vec_str
  unfolding Splits find_first_not_of from
  split_from zero i vec_str h = Splits-past zero i vec_str (omega (arith, h))
  split_from (suc f) i vec_str h =
      start_round f i vec_str (search (λ c. not (is_in delims c)) (drop i str))
        (start delims (drop i str)) (λ i' vec l. split_from f i' vec (omega (arith, h, l)))

  -- For every string and every set of delimiters: the loop of `split`, which searches by positions,
  -- ends within as many rounds as there are characters, and the vector it fills holds exactly the
  -- words that one pass over the characters gives (`words`), in order: the longest runs of
  -- characters that are no delimiters.
  pub split-words : split str delims ≡ ok (words delims [] str)
  unfolding split Splits
  split-words = split_from (length str) 0 [] (omega arith)
