-- ===== src/Buffer/Seeking.antt =====
-- Where the seeks of a stream over a buffer lead.
use stdsc.Base.{
  ℕ, ◌^◌, ◌<◌, ◌≡◌, refl, Bool, true, false, Bool-cases, inl, inr, ◌&&◌, ◌||◌, not, Option, none,
  some, arith, ==_refl, if◌then◌else◌,
}
use stdsc.Base.Int.{ℤ, pos, pos_part, ◌+ℤ◌, ◌-ℤ◌, ltb_ℤ, leb_ℤ}
use stdsc.Buffer.{
  BufferStream, SeekDir, beg, cur, end, OpenMode, is_cur, within, is_null, same_position, moved_get,
  moved_put, seekoff,
}

-- The position that a seek asks for, from the pointer of the direction that it is for.
abbrev pub target : ℤ → SeekDir → OpenMode → BufferStream → ℤ
target off beg which s = pos 0 +ℤ off
target off cur which s = pos (if which.is_input then s.gptr else s.pptr) +ℤ off
target off end which s = pos s.area +ℤ off -ℤ pos 1

abbrev pub is_allowed : SeekDir → OpenMode → Bool
is_allowed way which =
    (which.is_input || which.is_output) && not (which.is_input && which.is_output && is_cur way)

-- A seek that is allowed and asks for a byte of the buffer moves the pointers of its directions to it;
-- every other seek fails and moves nothing.
abbrev pub seek_to : ℤ → Bool → OpenMode → BufferStream → Option ℕ × BufferStream
seek_to t allowed which s =
    if allowed && leb_ℤ (pos 0) t && ltb_ℤ t (pos s.area)
    then (
      some (pos_part t),
      record s {
        gptr = if which.is_input then pos_part t else s.gptr;
        pptr = if which.is_output then pos_part t else s.pptr;
      },
    )
    else (none, s)

moved_put_lem : (p at : ℕ) → p < 2 ^ 31 → at < 2 ^ 31 → moved_put (some p) at ≡ p
moved_put_lem p at h l = ground (arith, h, l)

abbrev mode : Bool → Bool → OpenMode
mode i o = record { is_input = i; is_output = o }

module _ (s : BufferStream) (small : s.area < 2 ^ 31) (inside : s.pptr < 2 ^ 31) where
  put_at :
      (t : ℤ)
      → (leb_ℤ (pos 0) t && ltb_ℤ t (pos s.area)) ≡ true
      → moved_put (some (pos_part t)) s.pptr ≡ pos_part t
  put_at t h = moved_put_lem (pos_part t) s.pptr (ground (arith, h, small)) inside

  put_only :
      (t : ℤ)
      → let p = within t s.area in
        (if is_null p || false then (none, s) else (p, record s { pptr = moved_put p s.pptr }))
        ≡ seek_to t true (mode false true) s
  put_only t = elim (Bool-cases (leb_ℤ (pos 0) t && ltb_ℤ t (pos s.area))) [
    | inl e ↦ rw (e, put_at t e) refl
    | inr e ↦ rw e refl
  ]

  get_and_put :
      (t : ℤ)
      → let p = within t s.area in
        (if is_null p || is_null p || not (same_position p p)
          then (none, s)
          else (p, record s { gptr = moved_get p s.gptr; pptr = moved_put p s.pptr }))
        ≡ seek_to t true (mode true true) s
  get_and_put t = elim (Bool-cases (leb_ℤ (pos 0) t && ltb_ℤ t (pos s.area))) [
    | inl e ↦ rw (e, put_at t e, ==_refl (pos_part t)) refl
    | inr e ↦ rw e refl
  ]

  seekoff-mode :
      (off : ℤ) (way : SeekDir) (i o : Bool)
      → seekoff off way (mode i o) s
        ≡ seek_to (target off way (mode i o) s) (is_allowed way (mode i o)) (mode i o) s
  unfolding seekoff
  seekoff-mode off beg false false = refl
  seekoff-mode off cur false false = refl
  seekoff-mode off end false false = refl
  seekoff-mode off cur true true = refl
  seekoff-mode off beg true false = ground arith
  seekoff-mode off cur true false = ground arith
  seekoff-mode off end true false = ground arith
  seekoff-mode off beg false true = put_only (pos 0 +ℤ off)
  seekoff-mode off cur false true = put_only (pos s.pptr +ℤ off)
  seekoff-mode off end false true = put_only (pos s.area +ℤ off -ℤ pos 1)
  seekoff-mode off beg true true = get_and_put (pos 0 +ℤ off)
  seekoff-mode off end true true = get_and_put (pos s.area +ℤ off -ℤ pos 1)

  -- For a stream over a buffer of less than 2 ^ 31 bytes whose put pointer is below 2 ^ 31, in every
  -- mode and from every origin: `seekoff` does what one test of the wanted position describes
  -- (`seek_to`). A seek that is allowed and asks for a byte of the buffer moves the pointers of its
  -- directions there and returns the position; every other seek returns -1 and moves nothing. From
  -- the end the wanted position is one less than the offset says.
  pub seekoff-seek_to :
      (off : ℤ) (way : SeekDir) (which : OpenMode)
      → seekoff off way which s ≡ seek_to (target off way which s) (is_allowed way which) which s
  seekoff-seek_to off way which = seekoff-mode off way which.is_input which.is_output
