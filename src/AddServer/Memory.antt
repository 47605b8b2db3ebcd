-- ===== src/AddServer/Memory.antt =====
-- The memory of a CallbackParam: three 32-bit numbers in twelve bytes.
use stdsc.Base.{
  ℕ, ◌+◌, ◌^◌, ◌≤◌, ◌<◌, ◌≡◌, refl, ap, ◌∙◌, true, some, ◌++◌, arith, length, leb, take, drop,
  length-append, length-take, length-drop, take-append, take_all, drop-append,
}
use stdsc.Packet.{Bytes}
use stdsc.Packet.Codec.{encode, length-encode, decode-encode}
use stdsc.AddServer.Callbacks.{load, store, value_a, value_b}

leb_of_le : (a b : ℕ) → a ≤ b → leb a b ≡ true
leb_of_le a b h = ground arith

-- the memory after a write at `offset`
abbrev written : Bytes → ℕ → ℕ → Bytes
written bytes offset v = take offset bytes ++ (encode 4 v ++ drop (offset + 4) bytes)

length-written :
    (bytes : Bytes) (offset v : ℕ)
    → offset + 4 ≤ length bytes
    → length (written bytes offset v) ≡ length bytes
length-written bytes offset v h = omega (
  arith,
  length-append (take offset bytes) (encode 4 v ++ drop (offset + 4) bytes),
  length-append (encode 4 v) (drop (offset + 4) bytes),
  length-take offset bytes,
  length-drop (offset + 4) bytes,
  length-encode 4 v,
)

store-written :
    (bytes : Bytes) (offset v : ℕ)
    → offset + 4 ≤ length bytes
    → store bytes offset v ≡ some (written bytes offset v)
store-written bytes offset v h = rw (leb_of_le (offset + 4) (length bytes) h) refl

load-written :
    (bytes : Bytes) (offset v : ℕ)
    → offset + 4 ≤ length bytes
    → v < 2 ^ 32
    → load (written bytes offset v) offset ≡ some v
load-written bytes offset v h small =
    rw
      (leb_of_le (offset + 4) (length (written bytes offset v))
        (omega (arith, length-written bytes offset v h)))
      (rw
        (drop-append (take offset bytes) (encode 4 v ++ drop (offset + 4) bytes) offset
          (omega (arith, length-take offset bytes)))
        (rw
          (take-append (encode 4 v) (drop (offset + 4) bytes) 4 (omega (arith, length-encode 4 v)))
          (ap some (decode-encode 4 v small))))

-- Memory of the right size: a number that is stored is there afterwards, the size stays, and a
-- value B leaves value A alone.
pub store_lem :
    (bytes : Bytes) (offset v : ℕ)
    → offset + 4 ≤ length bytes
    → v < 2 ^ 32
    → (bytes' : Bytes) × (store bytes offset v ≡ some bytes')
      × (length bytes' ≡ length bytes)
      × (load bytes' offset ≡ some v)
store_lem bytes offset v h small = (
  written bytes offset v,
  store-written bytes offset v h,
  length-written bytes offset v h,
  load-written bytes offset v h small,
)

pub store_b :
    (bytes : Bytes) (a b : ℕ)
    → length bytes ≡ 12
    → b < 2 ^ 32
    → load bytes value_a ≡ some a
    → (bytes' : Bytes) × (store bytes value_b b ≡ some bytes')
      × (length bytes' ≡ 12)
      × (load bytes' value_a ≡ some a)
      × (load bytes' value_b ≡ some b)
store_b bytes a b n small la =
    let h : 4 + 4 ≤ length bytes = omega arith in
    let w = written bytes 4 b in
    (
      w,
      store-written bytes 4 b h,
      length-written bytes 4 b h ∙ n,
      same h,
      load-written bytes 4 b h small,
    )
  where
    same : 4 + 4 ≤ length bytes → load (written bytes 4 b) 0 ≡ some a
    same h =
        rw (leb_of_le 4 (length (written bytes 4 b)) (omega (arith, length-written bytes 4 b h))) (
          rw
            (take-append (take 4 bytes) (encode 4 b ++ drop 8 bytes) 4
              (omega (arith, length-take 4 bytes)))
            (rw (leb_of_le 4 (length bytes) (omega arith)) at la))

-- A buffer of exactly the four bytes of a number.
pub load-encode : (v : ℕ) → v < 2 ^ 32 → load (encode 4 v) 0 ≡ some v
load-encode v small = rw (leb_of_le 4 (length (encode 4 v)) (omega (arith, length-encode 4 v))) (
    rw (take_all 4 (encode 4 v) (omega (arith, length-encode 4 v)))
      (ap some (decode-encode 4 v small)))
