-- ===== src/Tests/Buffers.antt =====
-- Runs of the stream over a buffer.
use stdsc.Base.{◌≡◌, refl, true, false, none, some, arith}
use stdsc.Base.Int.{pos, negsuc}
use stdsc.Buffer.{BufferStream, OpenMode, cur, end, seekoff}
use stdsc.Buffer.Seeking.{target, is_allowed, seek_to, seekoff-seek_to}

abbrev stream : BufferStream
stream = record { buffer = 0; area = 8; gptr = 2; pptr = 6 }

abbrev output : OpenMode
output = record { is_input = false; is_output = true }

seekoff-seek_to_example :
    seekoff (negsuc 3) cur output stream
    ≡ seek_to (target (negsuc 3) cur output stream) (is_allowed cur output) output stream
seekoff-seek_to_example = seekoff-seek_to stream (omega arith) (omega arith) (negsuc 3) cur output

moved_back : seekoff (negsuc 3) cur output stream ≡ (some 2, record stream { pptr = 2 })
unfolding seekoff
moved_back = refl

last_byte : seekoff (pos 0) end output stream ≡ (some 7, record stream { pptr = 7 })
unfolding seekoff
last_byte = refl

past_last : seekoff (pos 1) end output stream ≡ (none, stream)
unfolding seekoff
past_last = refl
