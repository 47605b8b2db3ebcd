-- ===== src/AddServer/Threads/Among.antt =====
-- One client that keeps the protocol, among any others: where its connection stands after so many turns
-- of its thread. The last of its four messages is a parameter, in which the two examples differ.
use stdsc.Base.{List, ℕ, zero, suc, ◌^◌, ◌≤◌, ◌<◌, ◌≢◌, Bool, false, ◌++◌, arith}
use stdsc.System.{System}
use stdsc.Packet.{Bytes, Packet, packet_size, to_bytes, make_packet}
use stdsc.Packet.Codec.{encode}
use stdsc.Packet.Wire.{IsPacket, make_packet-IsPacket}
use stdsc.Socket.{Socket}
use stdsc.Socket.Connection.{IsConnection}
use stdsc.Socket.Frame.{Untouched}
use stdsc.Callback.{cint_eq}
use stdsc.Server.Steps.{Pc, waiting, answering}
use stdsc.Server.Threads.{Threads}
use stdsc.AddServer.State.{Object}
use stdsc.AddServer.Callbacks.{code_value_a, code_value_b, code_request_compute}
use stdsc.AddServer.Protocol.{accept_message}
use stdsc.AddServer.Threads.Table.{Table}
use stdsc.Callback.{View, CallbackFunction}
use stdsc.AddServer.Threads.Standing.{
  Phase, started, has_a, has_both, has_sum, Stands, moved_on, other-Stands,
}
use stdsc.AddServer.Threads.Turns.{receive-Stands}
use stdsc.AddServer.Threads.Served.{
  value_packet, value_packet-IsPacket, answer_a, answer_b, answer_compute,
}

module _ {W : Type 0} (sys : System W) (sockets : ℕ → Socket) (i : ℕ)
    (conn : W → Bytes → Bytes → Type 0) where
  -- What can happen on the way from a state of the threads, with the number of the turns that thread
  -- i has had, none of which finds `force_finish` set: a turn of it, a turn of any other thread, or a
  -- change of the system that leaves the streams of connection i as they were.
  pub data Among (from : Threads W Object) : ℕ → Threads W Object → Type 0 where
    begun : Among from 0 from
    own :
        {n : ℕ} {t : Threads W Object}
        → Among from n t
        → Among from (suc n) (moved_on sys sockets i false t)
    other :
        {n : ℕ} {t : Threads W Object} (j : ℕ) (force_finish : Bool)
        → i ≢ j
        → Among from n t
        → Among from n (moved_on sys sockets j force_finish t)
    outside :
        {n : ℕ} {t : Threads W Object} (w : W)
        → ((inc out : Bytes) → conn t.world inc out → conn w inc out)
        → Among from n t
        → Among from n (record t { world = w })

module _ {W : Type 0} (sys : System W) (sockets : ℕ → Socket) (i : ℕ)
    (conn : W → Bytes → Bytes → Type 0) (a b : ℕ)
    (table : List (ℕ × CallbackFunction (View W Object))) (last : Packet) (payload answer : Bytes)
    (rest out : Bytes) where
  abbrev third : Bytes
  third = to_bytes (make_packet code_request_compute)

  abbrev fourth : Bytes
  fourth = to_bytes last ++ (payload ++ rest)

  abbrev after_a : Bytes
  after_a = to_bytes (value_packet code_value_b b) ++ (encode 4 b ++ (third ++ fourth))

  -- Where the connection stands after so many turns of its thread, two for each message: how much is
  -- answered, where the thread is, the bytes to come and the bytes sent.
  abbrev point : ℕ → Phase × Pc × Bytes × Bytes
  point zero =
      (started, waiting, to_bytes (value_packet code_value_a a) ++ (encode 4 a ++ after_a), out)
  point (suc zero) = (started, answering (value_packet code_value_a a), encode 4 a ++ after_a, out)
  point (suc (suc zero)) = (has_a, waiting, after_a, out ++ accept_message)
  point (suc (suc (suc zero))) = (
    has_a,
    answering (value_packet code_value_b b),
    encode 4 b ++ (third ++ fourth),
    out ++ accept_message,
  )
  point (suc (suc (suc (suc zero)))) =
      (has_both, waiting, third ++ fourth, out ++ accept_message ++ accept_message)
  point (suc (suc (suc (suc (suc zero))))) = (
    has_both,
    answering (make_packet code_request_compute),
    fourth,
    out ++ accept_message ++ accept_message,
  )
  point (suc (suc (suc (suc (suc (suc zero)))))) =
      (has_sum, waiting, fourth, out ++ accept_message ++ accept_message ++ accept_message)
  point (suc (suc (suc (suc (suc (suc (suc zero))))))) = (
    has_sum,
    answering last,
    payload ++ rest,
    out ++ accept_message ++ accept_message ++ accept_message,
  )
  point _ = (
    has_sum,
    waiting,
    rest,
    out ++ accept_message ++ accept_message ++ accept_message ++ answer ++ accept_message,
  )

  abbrev pub After : ℕ → Threads W Object → Type 0
  After n t =
      let (phase, pc, inc, sent) = point n in
      Stands sys sockets i conn a b table phase pc inc sent t

  module _ (law : IsConnection sys (sockets i) conn) (rounds : packet_size ≤ sys.write_rounds)
      (ha : a < 2 ^ 32) (hb : b < 2 ^ 32) (fns : Table sys table) (known : IsPacket last)
      (answers : (inc sent : Bytes) (t : Threads W Object)
        → Stands sys sockets i conn a b table has_sum (answering last) (payload ++ inc) sent t
        → Stands sys sockets i conn a b table has_sum waiting inc
            (sent ++ answer ++ accept_message)
            (moved_on sys sockets i false t)) where
    own-After :
        (n : ℕ) (t : Threads W Object)
        → n < 8
        → After n t
        → After (suc n) (moved_on sys sockets i false t)
    own-After zero t l h =
        receive-Stands sys sockets i conn a b table law rounds (value_packet code_value_a a) t
          (value_packet-IsPacket code_value_a a (omega arith)) h
    own-After (suc zero) t l h =
        answer_a sys sockets i conn law rounds a b ha hb table fns after_a out t h
    own-After (suc (suc zero)) t l h =
        receive-Stands sys sockets i conn a b table law rounds (value_packet code_value_b b) t
          (value_packet-IsPacket code_value_b b (omega arith)) h
    own-After (suc (suc (suc zero))) t l h =
        answer_b sys sockets i conn law rounds a b ha hb table fns _ _ t h
    own-After (suc (suc (suc (suc zero)))) t l h =
        receive-Stands sys sockets i conn a b table law rounds (make_packet code_request_compute) t
          (make_packet-IsPacket code_request_compute (omega arith)) h
    own-After (suc (suc (suc (suc (suc zero))))) t l h =
        answer_compute sys sockets i conn law rounds a b ha hb table fns _ _ t h
    own-After (suc (suc (suc (suc (suc (suc zero)))))) t l h =
        receive-Stands sys sockets i conn a b table law rounds last t known h
    own-After (suc (suc (suc (suc (suc (suc (suc zero))))))) t l h = answers _ _ t h
    own-After (suc (suc (suc (suc (suc (suc (suc (suc n)))))))) t l h = absurd (omega arith)

    module _ (others : (j : ℕ) → i ≢ j → sockets i ≢ sockets j)
        (frame : (j : ℕ)
          → i ≢ j
          → (inc sent : Bytes) → Untouched sys (sockets j) (λ w. conn w inc sent)) where
      pub Among-After :
          {from : Threads W Object} {n : ℕ} {t : Threads W Object}
          → Among sys sockets i conn from n t
          → n ≤ 8
          → After 0 from
          → After n t
      Among-After begun l h = h
      Among-After (own {n = n} {t} before) l h =
          own-After n t (omega arith) (Among-After before (omega arith) h)
      Among-After (other {n = n} {t} j flag ne before) l h =
          other-Stands sys sockets i conn a b table j ne (others j ne) (frame j ne)
            (fns.keeps (sockets j)) flag t (Among-After before l h)
      Among-After (outside w kept before) l h =
          let s = Among-After before l h in
          record {
            separated = record {
              raises = s.separated.raises;
              only_first = s.separated.only_first;
              in_range = s.separated.in_range;
              apart = s.separated.apart;
            };
            at_pc = s.at_pc;
            wire = kept _ _ s.wire;
            object = s.object;
            bytes = s.bytes;
            allowed = s.allowed;
            stored = s.stored;
            at = s.at;
          }
