-- ===== src/AddServer/Threads/Turns.antt =====
-- The turns of the thread of a connection whose client keeps the protocol: it takes a packet, and it
-- answers one.
use stdsc.Base.{List, ℕ, ◌≤◌, ◌≡◌, refl, sym, ap, subst, ◌∙◌, false, ◌++◌, arith}
use stdsc.System.{System}
use stdsc.Packet.{Bytes, Packet, packet_size, to_bytes, new_packet}
use stdsc.Packet.Wire.{IsPacket}
use stdsc.Socket.{Socket}
use stdsc.Socket.Connection.{IsConnection}
use stdsc.Socket.Exchange.{recv_packet_lem}
use stdsc.State.{StateContext}
use stdsc.Callback.{View, CallbackFunction, Session, eval}
use stdsc.Server.Answers.{accepted, answer_lem}
use stdsc.Server.Steps.{Pc, waiting, answering, advance}
use stdsc.Server.Threads.{Threads, session_of, put, update}
use stdsc.AddServer.State.{Object}
use stdsc.AddServer.Protocol.{accept_message}
use stdsc.AddServer.Protocol.Serving.{At, Serves}
use stdsc.AddServer.Threads.Separation.{Separated, put-Separated}
use stdsc.AddServer.Threads.Standing.{Phase, Allowed, Stored, Stands, moved_on}

itself : (contexts : ℕ → StateContext) (i : ℕ) (sc : StateContext) → update contexts i sc i ≡ sc
itself contexts i sc = ground arith

module _ {W : Type 0} (sys : System W) (sockets : ℕ → Socket) (i : ℕ)
    (conn : W → Bytes → Bytes → Type 0) (a b : ℕ)
    (table : List (ℕ × CallbackFunction (View W Object))) where
  abbrev Here : Phase → Pc → Bytes → Bytes → Threads W Object → Type 0
  Here = Stands sys sockets i conn a b table

  put-Here :
      {phase : Phase} {inc out bytes : Bytes} {o : Object} (t : Threads W Object) (pc : Pc)
      (ses : Session W Object)
      → Separated (put t i (pc, ses))
      → conn ses.world inc out
      → Allowed phase o
      → Stored a b phase bytes
      → At sys (sockets i) table o bytes ses.context ses.objects ses.container
      → Here phase pc inc out (put t i (pc, ses))
  put-Here {bytes = bytes} {o} t pc ses sep wire allowed stored h = record {
    separated = sep;
    at_pc = ground arith;
    wire = wire;
    object = o;
    bytes = bytes;
    allowed = allowed;
    stored = stored;
    at =
        subst (λ sc. At sys (sockets i) table o bytes sc ses.objects ses.container)
          (sym (itself t.contexts i ses.context)) h;
  }

  -- A step of the thread itself, by what it comes to.
  own-Here :
      {phase : Phase} {inc out bytes : Bytes} {o : Object} (t : Threads W Object) (pc : Pc)
      (ses : Session W Object)
      → Separated t
      → advance sys (sockets i) false (t.pcs i, session_of t i) ≡ (pc, ses)
      → conn ses.world inc out
      → Allowed phase o
      → Stored a b phase bytes
      → At sys (sockets i) table o bytes ses.context ses.objects ses.container
      → Here phase pc inc out (moved_on sys sockets i false t)
  own-Here {phase} {inc} {out} t pc ses sep e wire allowed stored h =
      subst (λ r. Here phase pc inc out (put t i r)) (sym e)
        (put-Here t pc ses
          (subst (λ r. Separated (put t i r)) e (put-Separated sys sockets t i false sep)) wire
          allowed stored h)

  module _ (law : IsConnection sys (sockets i) conn) (rounds : packet_size ≤ sys.write_rounds) where
    -- It takes the packet that comes next.
    pub receive-Stands :
        {phase : Phase} {inc out : Bytes} (p : Packet) (t : Threads W Object)
        → IsPacket p
        → Here phase waiting (to_bytes p ++ inc) out t
        → Here phase (answering p) inc out (moved_on sys sockets i false t)
    unfolding advance
    receive-Stands {inc = inc} {out} p t hp h =
        let (w, got, c) =
          recv_packet_lem sys (sockets i) law p (new_packet 0) t.world inc out hp h.wire in
        own-Here t (answering p) (record (session_of t i) { world = w }) h.separated
          (ap (λ pc. advance sys (sockets i) false (pc, session_of t i)) h.at_pc ∙ rw got refl) c
          h.allowed h.stored
          (record { found = h.at.found; functions = h.at.functions; pointer = h.at.pointer })

    -- It answers a packet whose callback leads to a phase further on.
    pub answer-Stands :
        {phase next : Phase} {inc inc' out out' bytes : Bytes} {o : Object} (p : Packet)
        (t : Threads W Object)
        → Here phase (answering p) inc out t
        → Serves sys
            (sockets i)
            law
            rounds
            table
            o
            bytes
            inc'
            out'
            (eval sys (sockets i) p (session_of t i))
        → Allowed next o
        → Stored a b next bytes
        → Here next waiting inc' (out' ++ accept_message) (moved_on sys sockets i false t)
    unfolding advance
    answer-Stands {inc' = inc'} {out' = out'} p t h (ses, run, c, there) allowed stored =
        let (w, answered, c') =
          answer_lem sys (sockets i) law rounds p (session_of t i) ses inc' out' accepted run c in
        own-Here t waiting (record ses { world = w }) h.separated
          (ap (λ pc. advance sys (sockets i) false (pc, session_of t i)) h.at_pc ∙ rw answered refl)
          c' allowed stored
          (record { found = there.found; functions = there.functions; pointer = there.pointer })
