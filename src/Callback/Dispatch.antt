-- ===== src/Callback/Dispatch.antt =====
-- The evaluation of a packet by its group.
use stdsc.Base.{
  ℕ, ◌/◌, ◌≡◌, refl, ◌∙◌, true, false, Option, ◌++◌, arith, length, length-replicate, replicate,
}
use stdsc.Base.Assoc.{lookup}
use stdsc.Exec.{ok}
use stdsc.System.{System}
use stdsc.Packet.{Bytes, Packet, data_size}
use stdsc.Packet.ControlCode.{
  in_group, group_request, group_data, group_download, group_up_download,
}
use stdsc.Packet.Groups.{in_group_request, in_group_data, in_group_download, in_group_up_download}
use stdsc.Socket.{Socket, time_infinite, recv_buffer}
use stdsc.Socket.Connection.{IsConnection}
use stdsc.Socket.Exchange.{recv_buffer_lem}
use stdsc.Callback.{
  View, Session, CallbackFunction, nat_eq, register_connection, open_view, close_view, dispatch,
  receive, eval, when_registered,
}

-- The group of a code, by its upper byte: the ranges that the packet header documents.
abbrev pub InRange : ℕ → ℕ → Type 0
InRange code upper = code / 256 ≡ upper

-- the digits of a code, down to the one that decides
range_request : (code : ℕ) → InRange code 2 → in_group code group_request ≡ true
range_request code h = in_group_request code ∙ ground arith

range_data :
    (code : ℕ)
    → InRange code 4
    → (in_group code group_request ≡ false) × (in_group code group_data ≡ true)
range_data code h = (in_group_request code ∙ ground arith, in_group_data code ∙ ground arith)

range_download :
    (code : ℕ)
    → InRange code 8
    → (in_group code group_request ≡ false)
      × (in_group code group_data ≡ false)
      × (in_group code group_download ≡ true)
range_download code h = (
  in_group_request code ∙ ground arith,
  in_group_data code ∙ ground arith,
  in_group_download code ∙ ground arith,
)

range_up_download :
    (code : ℕ)
    → InRange code 16
    → (in_group code group_request ≡ false)
      × (in_group code group_data ≡ false)
      × (in_group code group_download ≡ false)
      × (in_group code group_up_download ≡ true)
range_up_download code h = (
  in_group_request code ∙ ground arith,
  in_group_data code ∙ ground arith,
  in_group_download code ∙ ground arith,
  in_group_up_download code ∙ ground arith,
)

module _ {W Object : Type 0} (sys : System W) (s : Socket) where
  -- what a callback is run on
  abbrev pub viewed : Session W Object → View W Object
  viewed ses = open_view s (record ses { container = register_connection s ses.container })

  abbrev pub registered : Packet → Session W Object → Option (CallbackFunction (View W Object))
  registered p ses = lookup p.control_code ses.container.funcmap

  pub eval_request :
      (p : Packet) (ses : Session W Object)
      → InRange p.control_code 2
      → eval sys s p ses
        ≡ close_view s (register_connection s ses.container) (
            when_registered
              (registered p ses)
              (λ f. f.request_function p.control_code)
              (viewed ses))
  unfolding eval dispatch register_connection
  eval_request p ses h = rw (range_request p.control_code h) refl

  pub eval_download :
      (p : Packet) (ses : Session W Object)
      → InRange p.control_code 8
      → eval sys s p ses
        ≡ close_view s (register_connection s ses.container) (
            when_registered
              (registered p ses)
              (λ f. f.download_function p.control_code s)
              (viewed ses))
  unfolding eval dispatch register_connection
  eval_download p ses h = let (a, b, d) = range_download p.control_code h in rw (a, b, d) refl

module _ {W Object : Type 0} (sys : System W) (s : Socket) {conn : W → Bytes → Bytes → Type 0}
    (law : IsConnection sys s conn) where
  receive_whole :
      (p : Packet) (bytes i o : Bytes) (ses : Session W Object)
      → data_size p ≡ length bytes
      → conn ses.world (bytes ++ i) o
      → (w : W) × (recv_buffer sys s (replicate (data_size p) 0) time_infinite ses.world
          ≡ (ok tt, bytes, w))
        × conn w i o
  receive_whole p bytes i o ses n c =
      recv_buffer_lem sys s law bytes (replicate (data_size p) 0) ses.world i o
        (omega (arith, n, length-replicate {A = ℕ} (data_size p) 0)) c

  -- Over a connection that does not fail (IsConnection): a packet whose code has 4 as its upper byte
  -- is evaluated by receiving the bytes that it announces, whether a function is registered for the
  -- code or not, and by calling the data function of the registered one, if any, with the code and
  -- these bytes.
  pub eval_data :
      (p : Packet) (bytes i o : Bytes) (ses : Session W Object)
      → InRange p.control_code 4
      → data_size p ≡ length bytes
      → conn ses.world (bytes ++ i) o
      → (w : W) × (eval sys s p ses
          ≡ close_view s (register_connection s ses.container) (
              when_registered
                (registered sys s p ses)
                (λ f. f.data_function p.control_code bytes)
                (record (viewed sys s ses) { world = w })))
        × conn w i o
  unfolding eval dispatch register_connection receive
  eval_data p bytes i o ses h n c =
      let (a, b) = range_data p.control_code h in
      let (w, got, c') = receive_whole p bytes i o ses n c in (w, rw (a, b) (rw got refl), c')

  -- Over a connection that does not fail (IsConnection): a packet whose code has 16 as its upper
  -- byte is evaluated by receiving the bytes that it announces, whether a function is registered for
  -- the code or not, and by calling the up-and-download function of the registered one, if any, with
  -- the code, these bytes and the socket.
  pub eval_up_download :
      (p : Packet) (bytes i o : Bytes) (ses : Session W Object)
      → InRange p.control_code 16
      → data_size p ≡ length bytes
      → conn ses.world (bytes ++ i) o
      → (w : W) × (eval sys s p ses
          ≡ close_view s (register_connection s ses.container) (
              when_registered
                (registered sys s p ses)
                (λ f. f.updownload_function p.control_code bytes s)
                (record (viewed sys s ses) { world = w })))
        × conn w i o
  unfolding eval dispatch register_connection receive
  eval_up_download p bytes i o ses h n c =
      let (a, b, d, e) = range_up_download p.control_code h in
      let (w, got, c') = receive_whole p bytes i o ses n c in (w, rw (a, b, d, e) (rw got refl), c')
