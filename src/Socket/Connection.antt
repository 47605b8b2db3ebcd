-- ===== src/Socket/Connection.antt =====
-- What the transfer loops rely on: a TCP connection as two streams of bytes, which the system may cut
-- into pieces.
use stdsc.Base.{
  ℕ, zero, suc, ◌-◌, ◌≤◌, ◌<◌, ◌≡◌, refl, ap, subst, ◌∙◌, none, some, [], ◌∷◌, ◌++◌, arith, length,
  take, drop, length-take, length-drop, take_split, drop_split, append_assoc, append-nil,
  take-append-drop,
}
use stdsc.Exec.{Result, ok}
use stdsc.System.{nonneg, received, System}
use stdsc.Packet.{Bytes}
use stdsc.Socket.{Socket, read_loop, read, write_loop, write}

-- `conn w i o`: in the state w the connection is up, the peer's bytes i are still to be received,
-- and the bytes o have been handed over for sending. The laws are POSIX's for a blocking stream
-- socket that does not fail: `recv` and `send` move some of the bytes, at least one, and a `select`
-- without a timeout returns once bytes arrive.
pub record IsConnection {W : Type 0} (sys : System W) (s : Socket)
    (conn : W → Bytes → Bytes → Type 0) : Type 0 where
  pub recv_some :
      (w : W) (i o : Bytes) (n : ℕ)
      → conn w i o
      → 0 < n
      → 0 < length i
      → (k : ℕ) × (w' : W) × (sys.recv s n w ≡ (received (take k i), w'))
        × (0 < k)
        × (k ≤ n)
        × (k ≤ length i)
        × conn w' (drop k i) o
  pub send_some :
      (w : W) (i o bytes : Bytes)
      → conn w i o
      → 0 < length bytes
      → (k : ℕ) × (w' : W) × (sys.send s bytes w ≡ (some (nonneg k), w'))
        × (0 < k)
        × (k ≤ length bytes)
        × conn w' i (o ++ take k bytes)
  pub select_some :
      (w : W) (i o : Bytes)
      → conn w i o
      → 0 < length i
      → (n : ℕ) × (w' : W) × (sys.select_read s none w ≡ (some (nonneg (suc n)), w')) × conn w' i o

module _ {W : Type 0} (sys : System W) (s : Socket) {conn : W → Bytes → Bytes → Type 0}
    (law : IsConnection sys s conn) where
  -- One round of the loop, once `recv` has delivered k bytes.
  pub read_round :
      (f remain k : ℕ) (written i : Bytes) (w w' : W)
      → sys.recv s (suc remain) w ≡ (received (take k i), w')
      → 0 < k
      → k ≤ length i
      → read_loop sys (suc f) s (suc remain) written w
        ≡ read_loop sys f s (suc remain - k) (written ++ take k i) w'
  unfolding read_loop
  read_round f remain zero written i w w' e h l = absurd (omega arith)
  read_round f remain (suc k) written [] w w' e h l = absurd (omega arith)
  read_round f remain (suc k) written (b ∷ bs) w w' e h l = ground (arith, e, length-take k bs)

  -- what a loop of reads comes to, with `n` bytes still wanted and `written` there
  ReadsAll : Bytes → Bytes → ℕ → Bytes → Result (Unit {0}) × Bytes × W → Type 0
  ReadsAll i o n written r =
      (w' : W) × (r ≡ (ok tt, written ++ take n i, w')) × conn w' (drop n i) o

  read_loop-ReadsAll :
      (f n : ℕ) (written i o : Bytes) (w : W)
      → n ≤ f
      → n ≤ length i
      → conn w i o
      → ReadsAll i o n written (read_loop sys f s n written w)
  unfolding read_loop ReadsAll
  read_loop-ReadsAll zero zero written i o w h l c = (w, rw append-nil refl, c)
  read_loop-ReadsAll zero (suc n) written i o w h l c = absurd (omega arith)
  read_loop-ReadsAll (suc f) zero written i o w h l c = (w, rw append-nil refl, c)
  read_loop-ReadsAll (suc f) (suc n) written i o w h l c =
      let (k, w₁, got, any, most, there, c₁) =
        law.recv_some w i o (suc n) c (omega arith) (omega arith) in
      let (w₂, rest, c₂) =
        read_loop-ReadsAll f (suc n - k) (written ++ take k i) (drop k i) o w₁ (omega arith)
          (omega (arith, length-drop k i)) c₁ in
      (
        w₂,
        read_round f n k written i w w₁ got any there
            ∙ rest
            ∙ ap (λ (x : Bytes). (ok tt, x, w₂))
                (append_assoc written (take k i) (take (suc n - k) (drop k i))
                  ∙ ap (λ x. written ++ x) (take_split k (suc n) i most)),
        subst (λ x. conn w₂ x o) (drop_split k (suc n) i most) c₂,
      )

  -- Over a connection that does not fail (IsConnection): with at least n bytes to come, `read`
  -- returns the next n of them and leaves the others, whatever the sizes of the pieces that `recv`
  -- delivers.
  pub read_lem :
      (n : ℕ) (w : W) (i o : Bytes)
      → n ≤ length i
      → conn w i o
      → (w' : W) × (read sys s n w ≡ (ok tt, take n i, w')) × conn w' (drop n i) o
  unfolding read ReadsAll
  read_lem n w i o l c = read_loop-ReadsAll n n [] i o w (omega arith) l c

  write_round :
      (f k : ℕ) (b : ℕ) (bs : Bytes) (w w' : W)
      → sys.send s (b ∷ bs) w ≡ (some (nonneg k), w')
      → write_loop sys (suc f) s (b ∷ bs) w ≡ write_loop sys f s (drop k (b ∷ bs)) w'
  unfolding write_loop
  write_round f k b bs w w' e = ground (arith, e)

  WritesAll : Bytes → Bytes → Bytes → Result (Unit {0}) × W → Type 0
  WritesAll i o bytes r = (w' : W) × (r ≡ (ok tt, w')) × conn w' i (o ++ bytes)

  write_loop-WritesAll :
      (f : ℕ) (bytes i o : Bytes) (w : W)
      → length bytes ≤ f
      → conn w i o
      → WritesAll i o bytes (write_loop sys f s bytes w)
  unfolding write_loop WritesAll
  write_loop-WritesAll zero [] i o w h c = (w, refl, rw append-nil c)
  write_loop-WritesAll zero (b ∷ bs) i o w h c = absurd (omega arith)
  write_loop-WritesAll (suc f) [] i o w h c = (w, refl, rw append-nil c)
  write_loop-WritesAll (suc f) (b ∷ bs) i o w h c =
      let (k, w₁, sent, any, most, c₁) = law.send_some w i o (b ∷ bs) c (omega arith) in
      let (w₂, rest, c₂) =
        write_loop-WritesAll f (drop k (b ∷ bs)) i (o ++ take k (b ∷ bs)) w₁
          (omega (arith, length-drop k (b ∷ bs))) c₁ in
      (
        w₂,
        write_round f k b bs w w₁ sent ∙ rest,
        subst (λ x. conn w₂ i x)
            (append_assoc o (take k (b ∷ bs)) (drop k (b ∷ bs))
              ∙ ap (λ x. o ++ x) (take-append-drop k (b ∷ bs)))
            c₂,
      )

  -- Over a connection that does not fail (IsConnection): `write`, with at least as many rounds of
  -- `send` as there are bytes, hands over all bytes in order.
  pub write_lem :
      (bytes : Bytes) (w : W) (i o : Bytes)
      → length bytes ≤ sys.write_rounds
      → conn w i o
      → (w' : W) × (write sys s bytes w ≡ (ok tt, w')) × conn w' i (o ++ bytes)
  unfolding write WritesAll
  write_lem bytes w i o h c = write_loop-WritesAll sys.write_rounds bytes i o w h c
