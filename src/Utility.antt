-- ===== src/Utility.antt =====
-- stdsc/stdsc_utility.cpp: strings, as lists of their characters' codes, and what it asks of files and
-- of the environment.
pub mod Words
pub mod Splitting
use stdsc.Base.{
  ℕ, zero, suc, ◌+◌, ◌-◌, Bool, true, false, ◌&&◌, ◌||◌, not, List, [], ◌∷◌, ◌++◌, Option, none,
  some, ◌==◌, ltb, leb, if◌then◌else◌, length, take, drop,
}
use stdsc.Exec.{file, Result, ok, throws, running, fault, Exec}
use stdsc.Packet.{Bytes}

-- What the library asks of the system: whether a file opens for reading, its size, whether `stat` finds
-- a name, and a variable of the environment.
pub record Host (W : Type 0) : Type 0 where
  pub opens : Bytes → W → Bool
  pub end_of : Bytes → W → ℕ
  pub stat : Bytes → W → Bool
  pub getenv : Bytes → W → Option Bytes

module _ {W : Type 0} (host : Host W) where
  unfoldable pub file_exist : Bytes → W → Bool
  file_exist filename w = host.opens filename w

  unfoldable pub dir_exist : Bytes → W → Bool
  dir_exist dirname w = host.stat dirname w

  -- the position of the end, from which that of the start, 0, is taken
  unfoldable pub file_size : Bytes → W → Result ℕ
  unfolding file_exist
  file_size filename w =
      if file_exist filename w then ok (host.end_of filename w) else throws (file "failed to open")

  unfoldable pub getenv : Bytes → W → Bytes
  getenv env_var w = elim (host.getenv env_var w) [ none ↦ [] | some env ↦ env ]

-- The position of the first character that passes a test, from a position on; `none` is npos.
abbrev pub search : (ℕ → Bool) → Bytes → Option ℕ
search test [] = none
search test (c ∷ cs) =
    let rest = search test cs in
    if test c then some 0 else elim rest [ none ↦ none | some k ↦ some (suc k) ]

abbrev pub search_from : (ℕ → Bool) → Bytes → ℕ → Option ℕ
search_from test str index = elim (search test (drop index str)) [
  | none ↦ none
  | some k ↦ some (index + k)
]

abbrev pub is_in : Bytes → ℕ → Bool
is_in [] c = false
is_in (d ∷ ds) c = (c == d) || is_in ds c

unfoldable pub find_first_of : Bytes → Bytes → ℕ → Option ℕ
find_first_of delims str index = search_from (is_in delims) str index

unfoldable pub find_first_not_of : Bytes → Bytes → ℕ → Option ℕ
find_first_not_of delims str index = search_from (λ c. not (is_in delims c)) str index

abbrev pub or_size : Option ℕ → ℕ → ℕ
or_size none str_size = str_size
or_size (some next_index) str_size = if ltb str_size next_index then str_size else next_index

-- The loop of `split`, with the vector so far. A round moves on by a character at least.
unfoldable pub split_loop : ℕ → Bytes → Bytes → Option ℕ → List Bytes → Result (List Bytes)
split_loop f str delims none vec_str = ok vec_str
split_loop zero str delims (some index) vec_str =
    if ltb index (length str) then running else ok vec_str
split_loop (suc f) str delims (some index) vec_str =
    let next_index = or_size (find_first_of delims str index) (length str) in
    let rest =
      split_loop f str delims (find_first_not_of delims str (next_index + 1))
        (vec_str ++ take (next_index - index) (drop index str) ∷ []) in
    if ltb index (length str) then rest else ok vec_str

-- as many rounds as characters are enough
unfoldable pub split : Bytes → Bytes → Result (List Bytes)
unfolding find_first_not_of
split str delims = split_loop (length str) str delims (find_first_not_of delims str 0) []

-- the part after the last slash
abbrev pub find_last_of : ℕ → Bytes → Option ℕ
find_last_of c [] = none
find_last_of c (x ∷ xs) = elim (find_last_of c xs) [
  | some k ↦ some (suc k)
  | none ↦ if x == c then some 0 else none
]

abbrev pub after : Option ℕ → ℕ
after none = 0
after (some k) = k + 1

unfoldable pub basename : Bytes → Bytes
basename filepath = drop (after (find_last_of 47 filepath)) filepath

abbrev pub is_digit : ℕ → Bool
is_digit c = leb 48 c && leb c 57

abbrev pub all_of : (ℕ → Bool) → Bytes → Bool
all_of test [] = true
all_of test (c ∷ cs) = test c && all_of test cs

unfoldable pub isdigit : Bytes → Bool
isdigit [] = false
isdigit (c ∷ cs) = if c == 45 then all_of is_digit cs else all_of is_digit (c ∷ cs)
