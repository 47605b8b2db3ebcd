-- ===== src/Data/RoundTrip.antt =====
-- What is loaded of the data that were saved.
use stdsc.Base.{
  ℕ, ◌^◌, ◌<◌, ◌≡◌, refl, sym, ap, ◌∙◌, String, true, List, [], ◌∷◌, ◌++◌, append_assoc, append-nil,
  Option, none, some, length,
}
use stdsc.Exec.{Result, ok, fault}
use stdsc.Packet.{Bytes}
use stdsc.Data.{
  Streamed, Input, Files, newline, push, clear, write_all, read_all, save_to_stream,
  load_from_stream, save_to_file, load_from_file,
}

-- A value that was written is read back, at the start of the stream and after the end of a line, and
-- the text after it stays. `Fits` are the values of the type.
pub record Rereads {T : Type 0} (s : Streamed T) (Fits : T → Type 0) : Type 0 where
  pub read-write :
      (x : T) (rest : Bytes)
      → Fits x
      → s.read (some (s.write x ++ (newline ++ rest))) ≡ (some x, some (newline ++ rest))
  pub read-newline :
      (x : T) (rest : Bytes)
      → Fits x
      → s.read (some (newline ++ (s.write x ++ (newline ++ rest))))
        ≡ (some x, some (newline ++ rest))

-- At the end of a stream `>>` gives a number no value.
pub record EndsEmpty {T : Type 0} (s : Streamed T) : Type 0 where
  pub read_end : s.read (some []) ≡ (none, none)

-- A file that was written is there, with what was written.
pub record Keeps {W : Type 0} (files : Files W) : Type 0 where
  pub exists-replace :
      (path : String) (text : Bytes) (w : W) → files.exists path (files.replace path text w) ≡ true
  pub contents-replace :
      (path : String) (text : Bytes) (w : W)
      → files.contents path (files.replace path text w) ≡ text

abbrev pub AllFit : {T : Type 0} → (T → Type 0) → List T → Type 0
AllFit Fits [] = Unit {0}
AllFit Fits (x ∷ xs) = Fits x × AllFit Fits xs

-- what saved data are loaded as
abbrev pub reread : {T : Type 0} → List T → Result (List T)
reread [] = fault
reread (x ∷ xs) = ok (x ∷ xs)

module _ {T : Type 0} (count : Streamed ℕ) (value : Streamed T) (Fits : T → Type 0)
    (counts : Rereads count (λ n. n < 2 ^ 64)) (ends : EndsEmpty count)
    (values : Rereads value Fits) where
  -- a round of the loop, once the read is done
  after_read : ℕ → List T → Option T × Input → Result (List T)
  after_read n vec r = elim r.0 [ none ↦ fault | some v ↦ read_all count value n (push v vec) r.1 ]

  read_all-write_all :
      (vs vec : List T)
      → AllFit Fits vs
      → read_all count value (length vs) vec (some (newline ++ write_all count value vs))
        ≡ ok (vec ++ vs)
  unfolding push after_read
  read_all-write_all [] vec h = ap ok (sym (append-nil vec))
  read_all-write_all (v ∷ vs) vec h =
      ap (after_read (length vs) vec) (values.read-newline v (write_all count value vs) h.0)
      ∙ read_all-write_all vs (push v vec) h.1
      ∙ ap ok (append_assoc vec (v ∷ []) vs)

  after_count : Option ℕ × Input → Result (List T)
  after_count r = elim r.0 [ none ↦ fault | some sz ↦ read_all count value sz [] r.1 ]

  load_from_stream-save_to_stream :
      (vec old : List T)
      → length vec < 2 ^ 64
      → AllFit Fits vec
      → load_from_stream count value (some (save_to_stream count value vec)) old ≡ reread vec
  unfolding load_from_stream save_to_stream clear after_count
  load_from_stream-save_to_stream [] old l h = ap after_count ends.read_end
  load_from_stream-save_to_stream (v ∷ vs) old l h =
      ap after_count (counts.read-write (length (v ∷ vs)) (write_all count value (v ∷ vs)) l)
      ∙ read_all-write_all (v ∷ vs) [] h

  -- Where `>>` reads back what `<<` wrote of a value before the end of a line (Rereads), gives a
  -- number no value at the end of a stream (EndsEmpty), and a file holds what was written to it
  -- (Keeps), for a PlainData of less than 2 ^ 64 values: saving never throws; loading the saved
  -- file, whatever the object held, gives exactly the values in their order, when there is one at
  -- least; with no value loading uses a count that has no value.
  pub load_from_file-save_to_file :
      {W : Type 0} (files : Files W) (path : String) (vec old : List T) (w : W)
      → Keeps files
      → length vec < 2 ^ 64
      → AllFit Fits vec
      → let saved = save_to_file count value files path vec w in
        (saved.0 ≡ ok tt)
        × (load_from_file count value files path old saved.1 ≡ (reread vec, saved.1))
  unfolding load_from_file save_to_file
  load_from_file-save_to_file files path vec old w keeps l h = (
    refl,
    rw (keeps.exists-replace path (save_to_stream count value vec) w) (
        rw (keeps.contents-replace path (save_to_stream count value vec) w) (
          ap (λ r. (r, files.replace path (save_to_stream count value vec) w))
            (load_from_stream-save_to_stream vec old l h))),
  )
