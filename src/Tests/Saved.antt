-- ===== src/Tests/Saved.antt =====
-- Data saved to a file and loaded, for numbers that are written as so many strokes.
use stdsc.Base.{
  ℕ, zero, suc, ◌+◌, ◌∙◌, ◌^◌, ◌<◌, ◌≡◌, refl, ap, true, List, [], ◌∷◌, ◌++◌, Option, none, some,
  arith, ◌==◌, if◌then◌else◌,
}
use stdsc.Exec.{ok}
use stdsc.Packet.{Bytes}
use stdsc.Data.{Streamed, Input, Files, newline, save_to_file, load_from_file}
use stdsc.Data.RoundTrip.{Rereads, EndsEmpty, Keeps, reread, load_from_file-save_to_file}

-- n strokes and a point
abbrev strokes : ℕ → Bytes
strokes zero = 46 ∷ []
strokes (suc n) = 124 ∷ strokes n

count_strokes : ℕ → Bytes → Option ℕ × Input
count_strokes n [] = (none, none)
count_strokes n (c ∷ cs) = if c == 46 then (some n, some cs) else count_strokes (suc n) cs

abbrev skip_newline : Bytes → Bytes
skip_newline [] = []
skip_newline (c ∷ cs) = if c == 10 then cs else c ∷ cs

abbrev read_number : Input → Option ℕ × Input
read_number none = (none, none)
read_number (some text) = count_strokes 0 (skip_newline text)

abbrev numbers : Streamed ℕ
numbers = record { write = strokes; read = read_number }

count_strokes-strokes :
    (n m : ℕ) (rest : Bytes) → count_strokes m (strokes n ++ rest) ≡ (some (n + m), some rest)
unfolding count_strokes
count_strokes-strokes zero m rest = let e : 0 + m ≡ m = omega arith in rw e refl
count_strokes-strokes (suc n) m rest =
    let e : suc n + m ≡ n + suc m = omega arith in rw e (count_strokes-strokes n (suc m) rest)

skip_newline-strokes : (n : ℕ) (rest : Bytes) → skip_newline (strokes n ++ rest) ≡ strokes n ++ rest
skip_newline-strokes zero rest = refl
skip_newline-strokes (suc n) rest = refl

read_strokes : (n : ℕ) (rest : Bytes) → count_strokes 0 (strokes n ++ rest) ≡ (some n, some rest)
read_strokes n rest =
    count_strokes-strokes n 0 rest ∙ (let e : n + 0 ≡ n = omega arith in rw e refl)

numbers-Rereads : {Fits : ℕ → Type 0} → Rereads numbers Fits
unfolding count_strokes
numbers-Rereads = record {
  read-write = λ x rest h.
      ap (count_strokes 0) (skip_newline-strokes x (newline ++ rest))
      ∙ read_strokes x (newline ++ rest);
  read-newline = λ x rest h. read_strokes x (newline ++ rest);
}

numbers-EndsEmpty : EndsEmpty numbers
unfolding count_strokes
numbers-EndsEmpty = record { read_end = refl }

-- one file
abbrev files : Files Bytes
files = record { exists = λ path w. true; contents = λ path w. w; replace = λ path text w. text }

files-Keeps : Keeps files
files-Keeps = record {
  exists-replace = λ path text w. refl;
  contents-replace = λ path text w. refl;
}

abbrev saved : List ℕ
saved = 3 ∷ 0 ∷ 2 ∷ []

load_from_file-save_to_file_example :
    ((save_to_file numbers numbers files "data" saved []).0 ≡ ok tt)
    × (load_from_file numbers numbers files "data"
          (7 ∷ [])
          (save_to_file numbers numbers files "data" saved []).1
        ≡ (reread saved, (save_to_file numbers numbers files "data" saved []).1))
load_from_file-save_to_file_example =
    load_from_file-save_to_file numbers numbers (λ n. n < 2 ^ 64) numbers-Rereads numbers-EndsEmpty
      numbers-Rereads files "data" saved (7 ∷ []) [] files-Keeps (omega arith)
      (omega arith, (omega arith, (omega arith, tt)))
