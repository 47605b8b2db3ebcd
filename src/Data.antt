-- ===== src/Data.antt =====
-- stdsc/stdsc_basicdata.hpp and stdsc_plaindata.hpp: a vector of values of a type T, written to streams
-- and files and read back.
pub mod RoundTrip
use stdsc.Base.{
  ℕ, zero, suc, String, Bool, true, false, ◌==◌, if◌then◌else◌, List, [], ◌∷◌, ◌++◌, Option, none,
  some, length,
}
use stdsc.Exec.{Exception, failure, file, Result, ok, throws, running, fault, Exec, pure, throw}
use stdsc.Packet.{Bytes}

-- A stream that is read: the text ahead, or `none` after a failure.
abbrev pub Input : Type 0
Input = Option Bytes

-- What `<<` writes for a value, and what `>>` leaves in the variable and the stream: a variable that
-- had no value and gets none still has none. Both are the C++ library's, or those of T.
pub record Streamed (T : Type 0) : Type 0 where
  pub write : T → Bytes
  pub read : Input → Option T × Input

-- the files of the system, which std::ifstream and std::ofstream open
pub record Files (W : Type 0) : Type 0 where
  pub exists : String → W → Bool
  pub contents : String → W → Bytes
  pub replace : String → Bytes → W → W

-- std::endl
abbrev pub newline : Bytes
newline = 10 ∷ []

module _ {T : Type 0} where
  unfoldable pub push : T → List T → List T
  push x vec = vec ++ x ∷ []

  unfoldable pub clear : List T → List T
  clear vec = []

  -- both forms of `data`
  unfoldable pub first_data : List T → Result T
  first_data [] = throws (failure "Data is empty.")
  first_data (x ∷ xs) = ok x

  -- both forms of `vdata`
  unfoldable pub vdata : List T → Result (List T)
  vdata [] = throws (failure "Data is empty.")
  vdata (x ∷ xs) = ok (x ∷ xs)

module _ {T : Type 0} (count : Streamed ℕ) (value : Streamed T) where
  abbrev write_all : List T → Bytes
  write_all [] = []
  write_all (v ∷ vs) = value.write v ++ (newline ++ write_all vs)

  -- PlainData::save_to_stream: what it appends to the stream
  unfoldable pub save_to_stream : List T → Bytes
  save_to_stream [] = []
  save_to_stream (v ∷ vs) = count.write (length (v ∷ vs)) ++ (newline ++ write_all (v ∷ vs))

  -- The loop of load_from_stream. C++ promises nothing of a `v` without a value that is pushed.
  abbrev read_all : ℕ → List T → Input → Result (List T)
  read_all zero vec is = ok vec
  read_all (suc n) vec is =
      let (got, rest) = value.read is in
      elim got [ none ↦ fault | some v ↦ read_all n (push v vec) rest ]

  -- PlainData::load_from_stream, which uses `sz` whether it got a value or not
  unfoldable pub load_from_stream : Input → List T → Result (List T)
  load_from_stream is vec =
      let (got, rest) = count.read is in
      elim got [ none ↦ fault | some sz ↦ read_all sz (clear vec) rest ]

  unfoldable pub stream_size : List T → ℕ
  unfolding save_to_stream
  stream_size vec = length (save_to_stream vec)

  module _ {W : Type 0} (files : Files W) where
    unfoldable pub save_to_file : String → List T → Exec W (Unit {0})
    unfolding save_to_stream
    save_to_file path vec w = (ok tt, files.replace path (save_to_stream vec) w)

    -- the vector that the object is left with
    unfoldable pub load_from_file : String → List T → Exec W (List T)
    unfolding load_from_stream
    load_from_file path vec w =
        if files.exists path w
        then (load_from_stream (some (files.contents path w)) vec, w)
        else (throws (file "File not found."), w)
