-- ===== src/Buffer.antt =====
-- stdsc/stdsc_buffer.hpp and stdsc_buffer.cpp: buffers, whose copies share their bytes, and the stream
-- over a buffer.
pub mod Seeking
pub mod Sharing
use stdsc.Base.{
  ℕ, ◌+◌, ◌-◌, ◌%◌, ◌^◌, Bool, true, false, ◌&&◌, ◌||◌, not, List, [], ◌∷◌, ◌++◌, Option, none,
  some, ◌==◌, ltb, leb, if◌then◌else◌, length, get_elem?, set, replicate, take,
}
use stdsc.Base.Int.{ℤ, pos, negsuc, pos_part, neg_part, ◌+ℤ◌, ◌-ℤ◌, sub_ℕ, ltb_ℤ, leb_ℤ}
use stdsc.Packet.{Bytes}

-- The objects behind the pointers `pimpl_`, each the bytes of its vector. A Buffer is such a pointer,
-- and a copy of it the same pointer.
abbrev pub Buffer : Type 0
Buffer = ℕ

abbrev pub Heap : Type 0
Heap = List Bytes

abbrev pub bytes_of : Heap → Buffer → Bytes
bytes_of h b = elim (get_elem? h b) [ none ↦ [] | some bytes ↦ bytes ]

abbrev pub make_impl : Bytes → Heap → Buffer × Heap
make_impl bytes h = (length h, h ++ bytes ∷ [])

abbrev pub new_buffer : Heap → Buffer × Heap
new_buffer h = make_impl [] h

unfoldable pub buffer_of_size : ℕ → Heap → Buffer × Heap
buffer_of_size size h = make_impl (replicate size 0) h

unfoldable pub buffer_filled : ℕ → ℕ → Heap → Buffer × Heap
buffer_filled size val h = make_impl (replicate size val) h

unfoldable pub copy : Buffer → Heap → Buffer × Heap
copy b h = (b, h)

-- What a move leaves of the vector that it takes the bytes of is up to the C++ library.
module _ (moved_from : Bytes → Bytes) where
  unfoldable pub assign_move : Buffer → Buffer → Heap → Heap
  assign_move to from h =
      let bytes = bytes_of h from in set (set h from (moved_from bytes)) to bytes

  unfoldable pub move : Buffer → Heap → Buffer × Heap
  unfolding assign_move
  move from h = let (b, h') = new_buffer h in (b, assign_move b from h')

unfoldable pub resize : Buffer → ℕ → Heap → Heap
resize b size h =
    let bytes = bytes_of h b in set h b (take size (bytes ++ replicate (size - length bytes) 0))

unfoldable pub size : Buffer → Heap → ℕ
size b h = length (bytes_of h b)

-- The areas of the stream, as offsets from `pbase` and `eback`, which are both the start of the bytes.
-- `area` is where both end, `gptr` and `pptr` are where they stand.
pub record BufferStream : Type 0 where
  pub buffer : Buffer
  pub area : ℕ
  pub gptr : ℕ
  pub pptr : ℕ

unfoldable pub setup : Buffer → ℕ → BufferStream
setup b size = record { buffer = b; area = size; gptr = 0; pptr = 0 }

unfoldable pub stream_of_size : ℕ → ℕ → Heap → BufferStream × Heap
unfolding buffer_filled
stream_of_size n val h = let (b, h') = buffer_filled n val h in (setup b n, h')

unfoldable pub zeroed_stream : ℕ → Heap → BufferStream × Heap
zeroed_stream n h = stream_of_size n 0 h

unfoldable pub stream_of : Buffer → Heap → BufferStream
stream_of b h = setup b (size b h)

-- std::ios_base::seekdir
pub data SeekDir : Type 0 where
  beg cur end : SeekDir

-- std::ios_base::openmode, as far as it is looked at
pub record OpenMode : Type 0 where
  pub is_input : Bool
  pub is_output : Bool

-- Where a seek in one area leads to, before it is tested.
abbrev pub seek_base : SeekDir → ℤ → ℕ → ℕ → ℤ
seek_base end off at area = pos area +ℤ off -ℤ pos 1
seek_base cur off at area = pos at +ℤ off
seek_base beg off at area = pos 0 +ℤ off

-- `pos_in_base` or `pos_out_base`; `none` is the null pointer, and the position -1
abbrev pub within : ℤ → ℕ → Option ℕ
within base area =
    if leb_ℤ (pos 0) base && ltb_ℤ base (pos area) then some (pos_part base) else none

abbrev pub seek_area : Bool → SeekDir → ℤ → ℕ → ℕ → Option ℕ
seek_area true way off at area = within (seek_base way off at area) area
seek_area false way off at area = none

-- the conversion of a difference of pointers to the `int` that pbump takes, and pbump
abbrev pub to_int : ℤ → ℤ
to_int (pos n) =
    if ltb (n % 2 ^ 32) (2 ^ 31) then pos (n % 2 ^ 32) else pos (n % 2 ^ 32) -ℤ pos (2 ^ 32)
to_int (negsuc n) =
    if ltb (n % 2 ^ 32) (2 ^ 31) then negsuc (n % 2 ^ 32) else pos (2 ^ 32 - 1 - n % 2 ^ 32)

abbrev pub pbump : ℤ → ℕ → ℕ
pbump n at = pos_part (pos at +ℤ n)

abbrev pub is_cur : SeekDir → Bool
is_cur cur = true
is_cur beg = false
is_cur end = false

abbrev same_position : Option ℕ → Option ℕ → Bool
same_position none none = true
same_position (some a) (some b) = a == b
same_position none (some b) = false
same_position (some a) none = false

abbrev is_null : Option ℕ → Bool
is_null none = true
is_null (some p) = false

-- where the two pointers stand after a seek that was not refused
abbrev moved_get : Option ℕ → ℕ → ℕ
moved_get none at = at
moved_get (some p) at = p

abbrev moved_put : Option ℕ → ℕ → ℕ
moved_put none at = at
moved_put (some p) at = if at == p then at else pbump (to_int (sub_ℕ p at)) at

-- `none` is the position -1, by which a stream tells that it did not seek.
unfoldable pub seekoff : ℤ → SeekDir → OpenMode → BufferStream → Option ℕ × BufferStream
seekoff off way which s =
    let pos_in = seek_area which.is_input way off s.gptr s.area in
    let pos_out = seek_area which.is_output way off s.pptr s.area in
    if (not which.is_input && not which.is_output)
      || (which.is_input && which.is_output && is_cur way)
    then (none, s)
    else if ((which.is_input && is_null pos_in) || (which.is_output && is_null pos_out))
        || (which.is_input && which.is_output && not (same_position pos_in pos_out))
    then (none, s)
    else (
      if which.is_input then pos_in else pos_out,
      record s { gptr = moved_get pos_in s.gptr; pptr = moved_put pos_out s.pptr },
    )

unfoldable pub seekpos : ℤ → OpenMode → BufferStream → Option ℕ × BufferStream
seekpos sp which s = seekoff sp beg which s
