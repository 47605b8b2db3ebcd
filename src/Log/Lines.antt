-- ===== src/Log/Lines.antt =====
-- The lines that the log prints, and their columns.
use stdsc.Base.{
  ℕ, ◌-◌, ◌+◌, ◌≤◌, ◌<◌, ◌≡◌, refl, sym, ap, ◌∙◌, Bool, true, false, Bool-cases, inl, inr, Option,
  none, some, [], ◌∷◌, ◌++◌, arith, if◌then◌else◌, leb, length, take, drop, replicate, take-append,
  drop-append, length-append, length-replicate, append_assoc,
}
use stdsc.Base.Int.{ℤ, ltb_ℤ}
use stdsc.Exec.{Result, ok, fault}
use stdsc.Packet.{Bytes}
use stdsc.Log.{
  Place, left, right, striped, space, max_length, shows_source, make_debuginfo, emit, log,
}

-- the part of a line at a position
abbrev pub column : ℕ → ℕ → Bytes → Bytes
column from width text = take width (drop from text)

length-left : (width : ℕ) (text : Bytes) → length text ≤ width → length (left width text) ≡ width
length-left width text h = omega (
  arith,
  h,
  length-append text (replicate (width - length text) space),
  length-replicate (width - length text) space,
)

length-right : (width : ℕ) (text : Bytes) → length text ≤ width → length (right width text) ≡ width
length-right width text h = omega (
  arith,
  h,
  length-append (replicate (width - length text) space) text,
  length-replicate (width - length text) space,
)

-- a part of a line behind another
column-append :
    (xs ys zs : Bytes) (from width : ℕ)
    → from ≡ length xs
    → width ≡ length ys
    → column from width (xs ++ (ys ++ zs)) ≡ ys
column-append xs ys zs from width e f =
    rw (drop-append xs (ys ++ zs) from e) (take-append ys zs width f)

-- the line of four texts, each with its width, and its end
abbrev joined : Bytes → Bytes → Bytes → Bytes → Bytes
joined m f d g = m ++ (f ++ (space ∷ []) ++ d ++ (space ∷ []) ++ g ++ (space ∷ [])) ++ (10 ∷ [])

module _ (m f d g : Bytes) (lm : length m ≡ 48) (lf : length f ≡ 24) (ld : length d ≡ 5)
    (lg : length g ≡ 32) where
  abbrev s : Bytes
  s = space ∷ []

  behind :
      (xs ys zs out : Bytes) (from width : ℕ)
      → out ≡ xs ++ (ys ++ zs)
      → from ≡ length xs
      → width ≡ length ys
      → column from width out ≡ ys
  behind xs ys zs out from width e h k =
      ap (column from width) e ∙ column-append xs ys zs from width h k

  first_column : column 0 48 (joined m f d g) ≡ m
  first_column =
      behind [] m ((f ++ s ++ d ++ s ++ g ++ s) ++ (10 ∷ [])) (joined m f d g) 0 48
        (simp append_assoc) refl (sym lm)

  second_column : column 48 24 (joined m f d g) ≡ f
  second_column =
      behind m f (s ++ d ++ s ++ g ++ s ++ (10 ∷ [])) (joined m f d g) 48 24 (simp append_assoc)
        (sym lm) (sym lf)

  third_column : column 73 5 (joined m f d g) ≡ d
  third_column =
      behind (m ++ f ++ s) d (s ++ g ++ s ++ (10 ∷ [])) (joined m f d g) 73 5 (simp append_assoc)
        (omega (arith, lm, lf, length-append (m ++ f) s, length-append m f)) (sym ld)

  fourth_column : column 79 32 (joined m f d g) ≡ g
  fourth_column =
      behind (m ++ f ++ s ++ d ++ s) g (s ++ (10 ∷ [])) (joined m f d g) 79 32 (simp append_assoc)
        (omega (
          arith,
          lm,
          lf,
          ld,
          length-append (m ++ f ++ s ++ d) s,
          length-append (m ++ f ++ s) d,
          length-append (m ++ f) s,
          length-append m f,
        ))
        (sym lg)

  length-joined : length (joined m f d g) ≡ 113
  length-joined = simp (length-append, lm, lf, ld, lg)

module _ (print_int : ℤ → Bytes) (place : Place) (message : Bytes) where
  -- The texts are no longer than their columns.
  pub record Fits : Type 0 where
    pub of_message : length message ≤ 48
    pub of_file : length (striped place.source_file_name) ≤ 24
    pub of_line : length (print_int place.source_line_number) ≤ 5
    pub of_function : length place.func_name ≤ 32

  -- Each text stands in the same column of every line.
  pub record Aligned (out : Bytes) : Type 0 where
    pub message_at : column 0 48 out ≡ left 48 message
    pub file_at : column 48 24 out ≡ left 24 (striped place.source_file_name)
    pub line_at : column 73 5 out ≡ right 5 (print_int place.source_line_number)
    pub function_at : column 79 32 out ≡ left 32 place.func_name
    pub whole : length out ≡ 113

  -- What the log does with a message, with a logger of this level.
  pub data Logs (current_level level : ℤ) : Result (Option Bytes) → Type 0 where
    quiet : ltb_ℤ current_level level ≡ true → Logs current_level level (ok none)
    overflows :
        ltb_ℤ current_level level ≡ false
        → max_length ≤ length message
        → Logs current_level level fault
    prints :
        {out : Bytes}
        → ltb_ℤ current_level level ≡ false
        → length message < max_length
        → take (length message) out ≡ message
        → (shows_source current_level ≡ true → Fits → Aligned out)
        → Logs current_level level (ok (some out))

  full-Aligned : Fits → Aligned (left 48 message ++ make_debuginfo print_int place ++ (10 ∷ []))
  unfolding make_debuginfo
  full-Aligned h =
      let m = left 48 message in
      let f = left 24 (striped place.source_file_name) in
      let d = right 5 (print_int place.source_line_number) in
      let g = left 32 place.func_name in
      let lm = length-left 48 message h.of_message in
      let lf = length-left 24 (striped place.source_file_name) h.of_file in
      let ld = length-right 5 (print_int place.source_line_number) h.of_line in
      let lg = length-left 32 place.func_name h.of_function in
      record {
        message_at = first_column m f d g lm lf ld lg;
        file_at = second_column m f d g lm lf ld lg;
        line_at = third_column m f d g lm lf ld lg;
        function_at = fourth_column m f d g lm lf ld lg;
        whole = length-joined m f d g lm lf ld lg;
      }

  shown-Aligned :
      (shown : Bool)
      → shown ≡ true
      → Fits
      → Aligned
          (left 48 message ++ (if shown then make_debuginfo print_int place else []) ++ (10 ∷ []))
  shown-Aligned true e h = full-Aligned h
  shown-Aligned false e h = cc

  -- With a logger, for every message and level: nothing is printed exactly where the level of the
  -- logger is below the level of the message; otherwise a message of 5120 characters or more
  -- overruns the array that it is formatted into; any other message is printed as one line that
  -- starts with it. Where the logger is at the debug level and the message, the name of the file
  -- without its path, the number and the function are not longer than their columns, the line has
  -- 113 characters, and they stand at the positions 0, 48, 73 and 79, each padded to its column.
  pub log-Logs :
      (current_level level : ℤ)
      → Logs current_level level (log print_int (some current_level) level place message)
  unfolding log emit
  log-Logs current_level level = elim (Bool-cases (ltb_ℤ current_level level)) [
    | inl e ↦ rw e (quiet e)
    | inr e ↦ elim (Bool-cases (leb (length message + 1) max_length)) [
      | inl l ↦
          rw (e, l)
            (prints e (ground (arith, l)) (begins (shows_source current_level))
              (shown-Aligned (shows_source current_level)))
      | inr l ↦ rw (e, l) (overflows e (ground (arith, l)))
    ]
  ]
    where
      begins :
          (shown : Bool)
          → take (length message) (
              left 48 message
              ++ (if shown then make_debuginfo print_int place else [])
              ++ (10 ∷ []))
            ≡ message
      begins shown =
          ap (take (length message)) (simp append_assoc)
          ∙ take-append message
              (replicate (48 - length message) space
                ++ ((if shown then make_debuginfo print_int place else []) ++ (10 ∷ [])))
              (length message) refl
