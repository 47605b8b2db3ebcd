-- ===== src/Tests/Among.antt =====
-- Two connections at once, over a system with a pair of streams for each descriptor.
use stdsc.Base.{
  some, ℕ, ◌+◌, ◌%◌, ◌^◌, ◌≡◌, ◌≢◌, refl, sym, ap, ◌∙◌, false, none, [], ◌∷◌, ◌++◌, append-nil,
  arith, take, drop, if◌then◌else◌,
}
use stdsc.Base.Int.{pos}
use stdsc.System.{System, CInt, minus_one, nonneg, received}
use stdsc.Packet.{Bytes}
use stdsc.Socket.{Socket}
use stdsc.Socket.Connection.{IsConnection}
use stdsc.Socket.Frame.{Untouched}
use stdsc.Callback.{beq_cint, beq_cint_iff}
use stdsc.Server.Steps.{waiting}
use stdsc.Server.Threads.{Threads}
use stdsc.AddServer.State.{Object}
use stdsc.AddServer.Callbacks.{code_value_b}
use stdsc.AddServer.Protocol.{data_message, requests, replies}
use stdsc.AddServer.Threads.Separation.{serving}
use stdsc.AddServer.Threads.Standing.{moved_on}
use stdsc.AddServer.Threads.Among.{Among, begun, own, other}
use stdsc.AddServer.Threads.Sum.{Among-sum}
use stdsc.MultiClient.ServerSide.{questions}
use stdsc.MultiClient.Comparing.{compared}
use stdsc.MultiClient.Threads.{comparing, Among-compared}

-- for each descriptor, what is still to come and what was sent
abbrev Lines : Type 0
Lines = CInt → Bytes × Bytes

abbrev set_line : CInt → Bytes × Bytes → Lines → Lines
set_line s x w t = if beq_cint s t then x else w t

abbrev switch : System Lines
switch = record {
  recv = λ s n w. (received (take 1 (w s).0), set_line s (drop 1 (w s).0, (w s).1) w);
  send = λ s bytes w. (some (nonneg 1), set_line s ((w s).0, (w s).1 ++ take 1 bytes) w);
  select_read = λ s timeout w. (some (nonneg 1), w);
  select_write = λ s timeout w. (nonneg 1, w);
  shutdown = λ s w. (nonneg 0, w);
  close = λ s w. (nonneg 0, w);
  new_socket = λ w. (minus_one, w);
  setsockopt = λ s option value w. (nonneg 0, w);
  bind = λ s port w. (nonneg 0, w);
  listen = λ s backlog w. (nonneg 0, w);
  accept = λ s w. (minus_one, w);
  getaddrinfo = λ host port w. (none, w);
  connect = λ s address w. (minus_one, w);
  fcntl_getfl = λ s w. (nonneg 0, w);
  fcntl_setfl = λ s flags w. (nonneg 0, w);
  errno = λ w. 0;
  usleep = λ usec w. w;
  atoi = λ text. pos 8080;
  write_rounds = 5000;
}

abbrev sockets : ℕ → Socket
sockets i = nonneg (i + 7)

abbrev first : Socket
first = nonneg 7

abbrev OnFirst : Lines → Bytes → Bytes → Type 0
OnFirst w i o = ((w first).0 ≡ i) × ((w first).1 ≡ o)

switch_lem : IsConnection switch (sockets 0) OnFirst
switch_lem = record {
  recv_some = λ w i o n c h l. (
    1,
    set_line first (drop 1 (w first).0, (w first).1) w,
    rw c.0 refl,
    omega arith,
    omega arith,
    omega arith,
    (ap (drop 1) c.0, c.1),
  );
  send_some = λ w i o bytes c l. (
    1,
    set_line first ((w first).0, (w first).1 ++ take 1 bytes) w,
    refl,
    omega arith,
    omega arith,
    (c.0, ap (λ m. m ++ take 1 bytes) c.1),
  );
  select_some = λ w i o c l. (0, w, refl, c);
}

elsewhere :
    (w : Lines) (s : Socket) (x : Bytes × Bytes) → first ≢ s → set_line s x w first ≡ w first
elsewhere w s x n = ground (arith, beq_cint_iff s first)

switch_frame :
    (s : Socket) → first ≢ s → (inc sent : Bytes) → Untouched switch s (λ w. OnFirst w inc sent)
switch_frame s n inc sent = record {
  after_recv = λ k w c.
      let e = elsewhere w s (drop 1 (w s).0, (w s).1) n in
      (ap (λ x. x.0) e ∙ c.0, ap (λ x. x.1) e ∙ c.1);
  after_send = λ bytes w c.
      let e = elsewhere w s ((w s).0, (w s).1 ++ take 1 bytes) n in
      (ap (λ x. x.0) e ∙ c.0, ap (λ x. x.1) e ∙ c.1);
  after_select_read = λ t w c. c;
}

distinct : (j : ℕ) → 0 ≢ j → sockets 0 ≢ sockets j
distinct j n e = n (ground (arith, e))

-- The second client sends a value B and nothing else.
abbrev both_clients : Lines
both_clients =
    set_line first (requests 10 20, [])
      (set_line (nonneg 8) (data_message code_value_b (1 ∷ 0 ∷ 0 ∷ 0 ∷ []), []) (λ s. ([], [])))

abbrev memory : Bytes
memory = 0 ∷ 0 ∷ 0 ∷ 0 ∷ 0 ∷ 0 ∷ 0 ∷ 0 ∷ 0 ∷ 0 ∷ 0 ∷ 0 ∷ []

abbrev from : Threads Lines Object
from = serving switch memory both_clients

abbrev turn : ℕ → Threads Lines Object → Threads Lines Object
turn i t = moved_on switch sockets i false t

abbrev half_way : Threads Lines Object
half_way = turn 0 (turn 0 (turn 1 (turn 1 (turn 0 (turn 0 from)))))

half_way-Among : Among switch sockets 0 OnFirst from 4 half_way
half_way-Among = own (own (other 1 false (λ e. cc) (other 1 false (λ e. cc) (own (own begun)))))

Among-sum_example :
    ((turn 0 (turn 0 (turn 0 (turn 0 half_way)))).pcs 0 ≡ waiting)
    × OnFirst
        (turn 0 (turn 0 (turn 0 (turn 0 half_way)))).world
        []
        ([] ++ replies ((10 + 20) % 2 ^ 32))
Among-sum_example =
    Among-sum switch sockets 0 OnFirst 10 20 [] [] switch_lem (omega arith) (omega arith)
      (omega arith) distinct (λ j n. switch_frame (sockets j) (distinct j n)) memory both_clients
      refl (sym (append-nil _), refl) (own (own (own (own half_way-Among))))

-- In the other example both expect a sum, the first client a wrong one.
abbrev both_comparing : Lines
both_comparing =
    set_line first (questions 10 20 31, [])
      (set_line (nonneg 8) (questions 1 2 3, []) (λ s. ([], [])))

abbrev comparing_from : Threads Lines Object
comparing_from = comparing switch memory both_comparing

abbrev comparing_end : Threads Lines Object
comparing_end =
    turn 0 (
      turn 0 (turn 0 (turn 0 (turn 1 (turn 0 (turn 0 (turn 1 (turn 0 (turn 0 comparing_from)))))))))

comparing-Among : Among switch sockets 0 OnFirst comparing_from 8 comparing_end
comparing-Among = own (
    own
      (own (own (other 1 false (λ e. cc) (own (own (other 1 false (λ e. cc) (own (own begun)))))))))

Among-compared_example :
    (comparing_end.pcs 0 ≡ waiting)
    × OnFirst comparing_end.world [] ([] ++ replies (compared ((10 + 20) % 2 ^ 32) 31))
Among-compared_example =
    Among-compared switch sockets 0 OnFirst 10 20 31 [] [] switch_lem (omega arith) (omega arith)
      (omega arith) (omega arith) distinct (λ j n. switch_frame (sockets j) (distinct j n)) memory
      both_comparing refl (sym (append-nil _), refl) comparing-Among
