-- ===== src/Server/Ending.antt =====
-- How the thread of a connection ends, and what the server makes of it.
use stdsc.Base.{ℕ, ◌+◌, ◌<◌, ◌≡◌, refl, ap, ◌∙◌, Bool, false, some, List, ◌∷◌, length}
use stdsc.Exec.{ok, throws}
use stdsc.System.{System}
use stdsc.Packet.{Bytes, packet_size, new_packet}
use stdsc.Socket.{Socket}
use stdsc.Socket.Closed.{IsClosed, closed_by_peer, recv_packet_short}
use stdsc.Callback.{Session}
use stdsc.Server.{
  ThreadException, leaves, exec, serve_packet, set_current_exception, Resource, wait,
}
use stdsc.Server.Steps.{after_round, exec-after_round}
use stdsc.Server.Resources.{CountsClosed, IsOpen, released, release_open}

wait_left :
    {W : Type 0} (sys : System W) {closed : W → ℕ} (counts : CountsClosed sys closed) (code : ℕ)
    (r : Resource) (w : W)
    → IsOpen r
    → (w' : W) × (wait sys (leaves (some (closed_by_peer code))) r w ≡ (ok released, w'))
      × (closed w' ≡ closed w + 1)
unfolding wait
wait_left sys counts code r w h = release_open sys counts r w h

module _ {W Object : Type 0} (sys : System W) (s : Socket) {conn : W → Bytes → Bytes → Type 0}
    (law : IsClosed sys s conn) where
  serve_packet-short :
      (ses : Session W Object) (i o : Bytes)
      → length i < packet_size
      → conn ses.world i o
      → (w' : W) × (serve_packet sys s ses
          ≡ (throws (closed_by_peer (sys.errno w')), record ses { world = w' }))
  unfolding serve_packet
  serve_packet-short ses i o l c =
      let (w', ended, c') = recv_packet_short sys s law (new_packet 0) ses.world i o l c in
      (w', rw ended refl)

  exec-short :
      (rest : List Bool) (ses : Session W Object) (te : ThreadException) (i o : Bytes)
      → length i < packet_size
      → conn ses.world i o
      → (w' : W) × (exec sys s (false ∷ rest) ses te
          ≡ (ok tt, record ses { world = w' }, some (closed_by_peer (sys.errno w'))))
  unfolding exec set_current_exception
  exec-short rest ses te i o l c =
      let (w', ended) = serve_packet-short ses i o l c in
      (
        w',
        exec-after_round sys s rest te (serve_packet sys s ses)
            ∙ ap (after_round sys s rest te) ended,
      )

  -- On a connection that its peer has closed, over a system as POSIX has it (IsClosed), with less
  -- than a packet to come: the thread of the connection that goes on (force_finish is false at the
  -- test) ends in this round, with the state objects, the context and the container as they were;
  -- and joining it with `wait`, in any state of the system whose `close` and `shutdown` count as
  -- they do (CountsClosed), releases the connection when it was open: its descriptor is closed once
  -- and set to -1.
  pub exec-wait :
      {closed : W → ℕ} (counts : CountsClosed sys closed) (rest : List Bool)
      (ses : Session W Object) (te : ThreadException) (i o : Bytes) (r : Resource)
      → length i < packet_size
      → conn ses.world i o
      → IsOpen r
      → (w' : W) × (te' : ThreadException) × (exec sys s (false ∷ rest) ses te
          ≡ (ok tt, record ses { world = w' }, te'))
        × ((w : W)
            → (w'' : W) × (wait sys (leaves te') r w ≡ (ok released, w''))
              × (closed w'' ≡ closed w + 1))
  exec-wait counts rest ses te i o r l c h =
      let (w', ended) = exec-short rest ses te i o l c in
      (
        w',
        some (closed_by_peer (sys.errno w')),
        ended,
        λ w. wait_left sys counts (sys.errno w') r w h,
      )
