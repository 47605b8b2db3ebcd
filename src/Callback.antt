-- ===== src/Callback.antt =====
-- stdsc/stdsc_callback_function.hpp, stdsc_callback_function.cpp and
-- stdsc_callback_function_container.cpp: the callbacks of a server, and their choice by the code of
-- a packet. A pointer to common data is the bytes that it points at; they are written back when the
-- callback is done.
pub mod Dispatch
pub mod CommonData
pub mod Registered
use stdsc.Base.{
  ℕ, Bool, true, false, Option, none, some, List, [], ◌∷◌, ◌==◌, if◌then◌else◌, ==_iff, replicate,
  ◌≡◌, arith, refl, ◌↔◌,
}
use stdsc.Base.Assoc.{Eq, lookup, insert, emplace}
use stdsc.Exec.{Result, ok, throws, running, fault, Exec, ◌>>=◌, ◌>>◌, pure}
use stdsc.System.{CInt, minus_one, nonneg, System}
use stdsc.Packet.{Bytes, Packet, data_size}
use stdsc.Packet.ControlCode.{in_group}
use stdsc.Packet.ControlCode
use stdsc.Socket.{Socket, time_infinite, recv_buffer}
use stdsc.State.{StateContext}

abbrev pub beq_cint : CInt → CInt → Bool
beq_cint minus_one minus_one = true
beq_cint (nonneg a) (nonneg b) = a == b
beq_cint _ _ = false

pub beq_cint_iff : (a b : CInt) → (beq_cint a b ≡ true) ↔ (a ≡ b)
beq_cint_iff minus_one minus_one = ground arith
beq_cint_iff minus_one (nonneg b) = ground arith
beq_cint_iff (nonneg a) minus_one = ground arith
beq_cint_iff (nonneg a) (nonneg b) = ground (arith, ==_iff a b)

instance abbrev pub cint_eq : Eq CInt
cint_eq = record { beq = beq_cint; beq_iff = beq_cint_iff }

instance abbrev pub nat_eq : Eq ℕ
nat_eq = record { beq = ◌==◌; beq_iff = ==_iff }

-- What a callback works on: the system, the state context with its objects, and the two pointers to
-- common data, `none` for `nullptr`.
pub record View (W Object : Type 0) : Type 0 where
  pub world : W
  pub context : StateContext
  pub objects : List Object
  pub on_each : Option Bytes
  pub on_all : Option Bytes

-- The virtual functions of `CallbackFunction`.
pub record CallbackFunction (V : Type 0) : Type 0 where
  pub request_function : ℕ → Exec V (Unit {0})
  pub data_function : ℕ → Bytes → Exec V (Unit {0})
  pub download_function : ℕ → Socket → Exec V (Unit {0})
  pub updownload_function : ℕ → Bytes → Socket → Exec V (Unit {0})

-- The base class: each function only logs that it is not implemented.
unfoldable pub base : {V : Type 0} → CallbackFunction V
base = record {
  request_function = λ code. pure tt;
  data_function = λ code buffer. pure tt;
  download_function = λ code s. pure tt;
  updownload_function = λ code buffer s. pure tt;
}

-- The classes that the DECLARE_*_CLASS macros declare: each overrides one function.
abbrev pub request_class : {V : Type 0} → (ℕ → Exec V (Unit {0})) → CallbackFunction V
request_class f = record base { request_function = f }

abbrev pub data_class : {V : Type 0} → (ℕ → Bytes → Exec V (Unit {0})) → CallbackFunction V
data_class f = record base { data_function = f }

abbrev pub download_class : {V : Type 0} → (ℕ → Socket → Exec V (Unit {0})) → CallbackFunction V
download_class f = record base { download_function = f }

abbrev pub updownload_class :
    {V : Type 0} → (ℕ → Bytes → Socket → Exec V (Unit {0})) → CallbackFunction V
updownload_class f = record base { updownload_function = f }

pub data CommonDataKind : Type 0 where
  unknown_kind on_all_connection on_each_connection : CommonDataKind

pub record Container (V : Type 0) : Type 0 where
  pub cdata_on_all : Bytes
  pub cdata_on_each : Bytes
  pub funcmap : List (ℕ × CallbackFunction V)
  pub cdatamap : List (CInt × Bytes)

unfoldable pub new_container : {V : Type 0} → Container V
new_container = record { cdata_on_all = []; cdata_on_each = []; funcmap = []; cdatamap = [] }

-- CallbackFunctionContainer::set
unfoldable pub set : {V : Type 0} → ℕ → CallbackFunction V → Container V → Container V
set code func c = record c { funcmap = emplace code func c.funcmap }

unfoldable pub set_commondata : {V : Type 0} → Bytes → CommonDataKind → Container V → Container V
set_commondata bytes on_all_connection c = record c { cdata_on_all = bytes }
set_commondata bytes _ c = record c { cdata_on_each = bytes }

-- What the thread of a connection works on. The container and the objects are shared with the
-- threads of the other connections.
pub record Session (W Object : Type 0) : Type 0 where
  pub world : W
  pub context : StateContext
  pub objects : List Object
  pub container : Container (View W Object)

abbrev pub pointer_to : Bytes → Option Bytes
pointer_to [] = none
pointer_to (b ∷ bs) = some (b ∷ bs)

abbrev write_back_each : CInt → Option Bytes → List (CInt × Bytes) → List (CInt × Bytes)
write_back_each id none m = m
write_back_each id (some bytes) m = insert id bytes m

abbrev write_back_all : Option Bytes → Bytes → Bytes
write_back_all none old = old
write_back_all (some bytes) old = bytes

module _ {W Object : Type 0} where
  -- `if (funcmap_.count(code)) funcmap_[code]->eval(…)`
  abbrev pub when_registered :
      Option (CallbackFunction (View W Object))
      → (CallbackFunction (View W Object) → Exec (View W Object) (Unit {0}))
      → Exec (View W Object) (Unit {0})
  when_registered none run = pure tt
  when_registered (some f) run = run f

  -- the container once `cdatamap_.emplace(sock.connection_id(), cdata_on_each_)` is done
  unfoldable pub register_connection :
      Socket → Container (View W Object) → Container (View W Object)
  register_connection s c = record c { cdatamap = emplace s c.cdata_on_each c.cdatamap }

  -- cdata_on_each
  abbrev pub each_pointer : Socket → Container (View W Object) → Option Bytes
  each_pointer s c = elim (pointer_to c.cdata_on_each) [
    | none ↦ none
    | some _ ↦ lookup s c.cdatamap
  ]

  abbrev pub open_view : Socket → Session W Object → View W Object
  open_view s ses = record {
    world = ses.world;
    context = ses.context;
    objects = ses.objects;
    on_each = each_pointer s ses.container;
    on_all = pointer_to ses.container.cdata_on_all;
  }

  abbrev pub close_view :
      Socket
      → Container (View W Object)
      → Result (Unit {0}) × View W Object
      → Result (Unit {0}) × Session W Object
  close_view s c (r, v) = (
    r,
    record {
      world = v.world;
      context = v.context;
      objects = v.objects;
      container = record c {
        cdatamap = write_back_each s v.on_each c.cdatamap;
        cdata_on_all = write_back_all v.on_all c.cdata_on_all;
      };
    },
  )

abbrev pub received :
    {W Object : Type 0}
    → Result (Unit {0}) × Bytes × W
    → View W Object
    → Result Bytes × View W Object
received (ok _, buffer, w) v = (ok buffer, record v { world = w })
received (throws e, buffer, w) v = (throws e, record v { world = w })
received (running, buffer, w) v = (running, record v { world = w })
received (fault, buffer, w) v = (fault, record v { world = w })

module _ {W Object : Type 0} (sys : System W) where
  -- `Buffer buffer(size); sock.recv_buffer(buffer);`
  unfoldable pub receive : Socket → ℕ → Exec (View W Object) Bytes
  receive s size v = received (recv_buffer sys s (replicate size 0) time_infinite v.world) v

  -- the ladder of `Impl::eval`
  unfoldable pub dispatch :
      Socket → Packet → Option (CallbackFunction (View W Object)) → Exec (View W Object) (Unit {0})
  unfolding receive
  dispatch s packet func =
      let code = packet.control_code in
      if in_group code ControlCode.group_request
      then when_registered func (λ f. f.request_function code)
      else if in_group code ControlCode.group_data
      then (do
        buffer ← receive s (data_size packet)
        when_registered func (λ f. f.data_function code buffer))
      else if in_group code ControlCode.group_download
      then when_registered func (λ f. f.download_function code s)
      else if in_group code ControlCode.group_up_download
      then (do
        buffer ← receive s (data_size packet)
        when_registered func (λ f. f.updownload_function code buffer s))
      else pure tt

  -- CallbackFunctionContainer::eval
  unfoldable pub eval : Socket → Packet → Exec (Session W Object) (Unit {0})
  unfolding register_connection
  eval s packet ses =
      let c = register_connection s ses.container in
      close_view s c (
        dispatch s packet (lookup packet.control_code c.funcmap)
          (open_view s (record ses { container = c })))
