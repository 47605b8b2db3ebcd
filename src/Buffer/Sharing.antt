-- ===== src/Buffer/Sharing.antt =====
-- What a copy and a move of a buffer share.
use stdsc.Base.{
  ℕ, ◌+◌, ◌-◌, ◌<◌, ◌≡◌, ◌≢◌, refl, sym, ap, ◌∙◌, [], ◌∷◌, ◌++◌, arith, length, length-append,
  length-set, length-take, length-replicate, set, get_elem?-append_old, get_elem?-set_self,
  get_elem?-set_ne, take, replicate,
}
use stdsc.Packet.{Bytes}
use stdsc.Buffer.{Buffer, Heap, bytes_of, copy, assign_move, move, resize, size}

bytes_of-set_self :
    (h : Heap) (b : Buffer) (bytes : Bytes) → b < length h → bytes_of (set h b bytes) b ≡ bytes
bytes_of-set_self h b bytes l = rw (get_elem?-set_self h b bytes l, bytes_of) refl

bytes_of-set_ne :
    (h : Heap) (b c : Buffer) (bytes : Bytes) → b ≢ c → bytes_of (set h b bytes) c ≡ bytes_of h c
bytes_of-set_ne h b c bytes n = rw (get_elem?-set_ne h b c bytes n, bytes_of) refl

bytes_of-append_old :
    (h : Heap) (b : Buffer) (bytes : Bytes)
    → b < length h
    → bytes_of (h ++ bytes ∷ []) b ≡ bytes_of h b
bytes_of-append_old h b bytes l = rw (get_elem?-append_old h bytes b l, bytes_of) refl

-- A copy is resized with the buffer that it is a copy of, and no other buffer is.
pub size-resize-copy :
    (b : Buffer) (n : ℕ) (h : Heap)
    → b < length h
    → let r = copy b h in
      (size r.0 (resize b n r.1) ≡ n)
      × ((c : Buffer) → b ≢ c → bytes_of (resize b n r.1) c ≡ bytes_of h c)
unfolding copy resize size
size-resize-copy b n h l =
    let bytes = bytes_of h b in
    let bytes' = take n (bytes ++ replicate (n - length bytes) 0) in
    (
      ap length (bytes_of-set_self h b bytes' l)
          ∙ omega (
            arith,
            length-take n (bytes ++ replicate (n - length bytes) 0),
            length-append bytes (replicate (n - length bytes) 0),
            length-replicate {A = ℕ} (n - length bytes) 0,
          ),
      λ c d. bytes_of-set_ne h b c bytes' d,
    )

-- A move makes a new buffer with the bytes; what is left of the old one is what the C++ library leaves,
-- and no other buffer changes.
pub move_lem :
    (moved_from : Bytes → Bytes) (from : Buffer) (h : Heap)
    → from < length h
    → let r = move moved_from from h in
      (bytes_of r.1 r.0 ≡ bytes_of h from)
      × (bytes_of r.1 from ≡ moved_from (bytes_of h from))
      × ((c : Buffer) → c < length h → c ≢ from → bytes_of r.1 c ≡ bytes_of h c)
unfolding move assign_move
move_lem moved_from from h l =
    let made = h ++ [] ∷ [] in
    let old = bytes_of-append_old h from [] l in
    let left = set made from (moved_from (bytes_of made from)) in
    let longer : length made ≡ length h + 1 = omega (arith, length-append h ([] ∷ [])) in
    let same : length left ≡ length made = length-set made from (moved_from (bytes_of made from)) in
    (
      bytes_of-set_self left (length h) (bytes_of made from) (omega (arith, longer, same)) ∙ old,
      bytes_of-set_ne left (length h) from (bytes_of made from) (λ e. absurd (omega (arith, e, l)))
          ∙ bytes_of-set_self made from (moved_from (bytes_of made from)) (omega (arith, longer, l))
          ∙ ap moved_from old,
      λ c k n.
          bytes_of-set_ne left (length h) c (bytes_of made from) (λ e. absurd (omega (arith, e, k)))
          ∙ bytes_of-set_ne made from c (moved_from (bytes_of made from)) (λ e. n (sym e))
          ∙ bytes_of-append_old h c [] k,
    )
