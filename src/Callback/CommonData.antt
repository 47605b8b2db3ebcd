-- ===== src/Callback/CommonData.antt =====
-- The common data of the connections, kept in one map by their descriptors.
use stdsc.Base.{ℕ, ◌≡◌, ◌≢◌, refl, true, false, Option, none, some, arith, if◌then◌else◌}
use stdsc.Base.Assoc.{lookup, insert, emplace, or_else, lookup-insert, lookup-emplace}
use stdsc.Exec.{Result}
use stdsc.System.{CInt, System}
use stdsc.Packet.{Bytes, Packet}
use stdsc.Socket.{Socket}
use stdsc.Callback.{
  View, Container, Session, CallbackFunction, cint_eq, nat_eq, beq_cint, beq_cint_iff, pointer_to,
  write_back_each, register_connection, each_pointer, open_view, close_view, dispatch, eval,
}
use stdsc.Callback

beq_cint_refl : (s : CInt) → beq_cint s s ≡ true
beq_cint_refl s = (beq_cint_iff s s).1 refl

beq_cint_ne : (s t : CInt) → s ≢ t → beq_cint s t ≡ false
beq_cint_ne s t n = ground (arith, beq_cint_iff s t)

module _ {W Object : Type 0} where
  -- The pointer that a callback gets is null when no common data is set. Otherwise it leads to the
  -- data that the map holds for the descriptor, if it holds any, and to a copy of the initial data
  -- if not.
  pub each_pointer-register_connection :
      (s : Socket) (c : Container (View W Object))
      → each_pointer s (register_connection s c) ≡ elim (pointer_to c.cdata_on_each) [
        | none ↦ none
        | some _ ↦ some (or_else (lookup s c.cdatamap) c.cdata_on_each)
      ]
  unfolding register_connection
  each_pointer-register_connection s c =
      ground (arith, lookup-emplace s s c.cdata_on_each c.cdatamap, beq_cint_refl s)

  -- Where a connection has common data, what a callback leaves behind its pointer is what the next
  -- callback for the same descriptor gets.
  pub each_pointer-close_view :
      (s : Socket) (c : Container (View W Object)) (r : Result (Unit {0})) (v : View W Object)
      (old bytes : Bytes)
      → each_pointer s (register_connection s c) ≡ some old
      → v.on_each ≡ some bytes
      → each_pointer s
          (register_connection s (close_view s (register_connection s c) (r, v)).1.container)
        ≡ some bytes
  unfolding register_connection
  each_pointer-close_view s c r v old bytes h e =
      rw (e, write_back_each)
        (ground (
          arith,
          lookup-emplace s s c.cdata_on_each
              (insert s bytes (emplace s c.cdata_on_each c.cdatamap)),
          lookup-insert s s bytes (emplace s c.cdata_on_each c.cdatamap),
          beq_cint_refl s,
        ))

  -- The function that is found for a code is the one that was registered for it first; registering
  -- leaves the functions of the other codes as they were.
  pub lookup-set :
      (code k : ℕ) (f : CallbackFunction (View W Object)) (c : Container (View W Object))
      → lookup k (Callback.set code f c).funcmap ≡ (
          if nat_eq.beq code k
          then some (or_else (lookup code c.funcmap) f)
          else lookup k c.funcmap)
  unfolding Callback.set
  lookup-set code k f c = lookup-emplace code k f c.funcmap

  module _ (sys : System W) (s : Socket) (packet : Packet) (ses : Session W Object) where
    -- The evaluation of a packet of one connection leaves the common data of every other descriptor
    -- as it was.
    pub eval_other :
        (t : Socket)
        → t ≢ s
        → lookup t (eval sys s packet ses).1.container.cdatamap ≡ lookup t ses.container.cdatamap
    unfolding eval
    eval_other t n = other _
      where
        other :
            (e : Option Bytes)
            → lookup t
                (write_back_each s e (emplace s ses.container.cdata_on_each ses.container.cdatamap))
              ≡ lookup t ses.container.cdatamap
        other none = ground (
          arith,
          lookup-emplace s t ses.container.cdata_on_each ses.container.cdatamap,
          beq_cint_iff s t,
        )
        other (some bytes) = ground (
          arith,
          lookup-insert s t bytes (emplace s ses.container.cdata_on_each ses.container.cdatamap),
          lookup-emplace s t ses.container.cdata_on_each ses.container.cdatamap,
          beq_cint_iff s t,
        )
