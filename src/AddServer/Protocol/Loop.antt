-- ===== src/AddServer/Protocol/Loop.antt =====
-- One round of the loop of a connection's thread, for each kind of message.
use stdsc.Base.{ℕ, ◌^◌, ◌≤◌, ◌<◌, ◌≡◌, some, List, ◌++◌, arith, length, append_assoc, get_elem?}
use stdsc.Base.Assoc.{lookup}
use stdsc.Exec.{ok}
use stdsc.System.{System}
use stdsc.Packet.{Bytes, Packet, packet_size, to_bytes, new_packet, set_data_size, make_packet}
use stdsc.Packet.Wire.{make_packet-IsPacket}
use stdsc.Packet.Groups.{announced-IsPacket}
use stdsc.Socket.{Socket}
use stdsc.Socket.Connection.{IsConnection}
use stdsc.Callback.{View, Session, CallbackFunction, nat_eq}
use stdsc.Callback.Dispatch.{InRange}
use stdsc.Server.{serve_packet}
use stdsc.Server.Answers.{accepted, serve_packet_lem}
use stdsc.AddServer.State.{Object}
use stdsc.AddServer.Sharing.{follow}
use stdsc.AddServer.Protocol.{data_message, accept_message}
use stdsc.AddServer.Rounds.{moved}
use stdsc.AddServer.Protocol.Serving.{At, Serves, data_eval, request_eval, download_eval}

module _ {W : Type 0} (sys : System W) (s : Socket) {conn : W → Bytes → Bytes → Type 0}
    (law : IsConnection sys s conn) (rounds : packet_size ≤ sys.write_rounds)
    (table : List (ℕ × CallbackFunction (View W Object))) where
  pub data_round :
      (code event : ℕ) (o : Object) (bytes bytes' payload i out : Bytes) (ses : Session W Object)
      (f : CallbackFunction (View W Object))
      → InRange code 4
      → length payload < 2 ^ 64
      → lookup code table ≡ some f
      → ((v : View W Object)
          → get_elem? v.objects v.context.state ≡ some o
          → v.on_each ≡ some bytes
          → f.data_function code payload v ≡ (ok tt, moved event bytes' v))
      → At sys s table o bytes ses.context ses.objects ses.container
      → conn ses.world (data_message code payload ++ i) out
      → Serves sys s law rounds table
          (follow o event)
          bytes'
          i
          (out ++ accept_message)
          (serve_packet sys s ses)
  data_round code event o bytes bytes' payload i out ses f range small known runs h c =
      serve_packet_lem sys s law rounds p ses (payload ++ i) out i out
        (At sys s table (follow o event) bytes')
        (announced-IsPacket code (length payload) (omega arith)) accepted
        (λ w c'.
          data_eval sys s law rounds table code event o bytes bytes' payload i out
            (record ses { world = w }) f range small known runs h c')
        (rw (append_assoc (to_bytes p) payload i) at c)
    where
      p : Packet
      p = set_data_size (new_packet code) (length payload)

  pub request_round :
      (code event : ℕ) (o : Object) (bytes bytes' i out : Bytes) (ses : Session W Object)
      (f : CallbackFunction (View W Object))
      → InRange code 2
      → lookup code table ≡ some f
      → ((v : View W Object)
          → get_elem? v.objects v.context.state ≡ some o
          → v.on_each ≡ some bytes
          → f.request_function code v ≡ (ok tt, moved event bytes' v))
      → At sys s table o bytes ses.context ses.objects ses.container
      → conn ses.world (to_bytes (make_packet code) ++ i) out
      → Serves sys s law rounds table
          (follow o event)
          bytes'
          i
          (out ++ accept_message)
          (serve_packet sys s ses)
  request_round code event o bytes bytes' i out ses f range known runs h c =
      serve_packet_lem sys s law rounds (make_packet code) ses i out i out
        (At sys s table (follow o event) bytes') (make_packet-IsPacket code (omega arith)) accepted
        (λ w c'.
          request_eval sys s law rounds table code event o bytes bytes' i out
            (record ses { world = w }) f range known runs h c')
        c

  pub download_round :
      (code event : ℕ) (o : Object) (bytes i out answer : Bytes) (ses : Session W Object)
      (f : CallbackFunction (View W Object))
      → InRange code 8
      → lookup code table ≡ some f
      → ((v : View W Object)
          → get_elem? v.objects v.context.state ≡ some o
          → v.on_each ≡ some bytes
          → conn v.world i out
          → (w : W) × (f.download_function code s v
              ≡ (ok tt, moved event bytes (record v { world = w })))
            × conn w i (out ++ answer))
      → At sys s table o bytes ses.context ses.objects ses.container
      → conn ses.world (to_bytes (make_packet code) ++ i) out
      → Serves sys s law rounds table
          (follow o event)
          bytes
          i
          (out ++ answer ++ accept_message)
          (serve_packet sys s ses)
  download_round code event o bytes i out answer ses f range known runs h c =
      serve_packet_lem sys s law rounds (make_packet code) ses i out i (out ++ answer)
        (At sys s table (follow o event) bytes) (make_packet-IsPacket code (omega arith)) accepted
        (λ w c'.
          download_eval sys s law rounds table code event o bytes i out answer
            (record ses { world = w }) f range known runs h c')
        c
