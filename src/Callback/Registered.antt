-- ===== src/Callback/Registered.antt =====
-- A predicate on actions that every registered function has, and so the evaluation of a packet.
use stdsc.Base.{ℕ, Bool, true, false, Option, some, List, [], ◌∷◌, if◌then◌else◌, ◌==◌}
use stdsc.Base.Assoc.{lookup}
use stdsc.Exec.{ok, Exec, ◌>>=◌}
use stdsc.System.{System}
use stdsc.Packet.{Bytes, Packet, data_size}
use stdsc.Packet.ControlCode
use stdsc.Packet.ControlCode.{in_group}
use stdsc.Socket.{Socket}
use stdsc.Callback.{
  View, CallbackFunction, base, request_class, data_class, download_class, updownload_class, nat_eq,
  when_registered, receive, dispatch,
}

module _ {W Object : Type 0} (R : Exec (View W Object) (Unit {0}) → Type 0) where
  -- Each of the four functions, called for this socket, has the property.
  pub record Does (s : Socket) (f : CallbackFunction (View W Object)) : Type 0 where
    pub on_request : (code : ℕ) → R (f.request_function code)
    pub on_data : (code : ℕ) (buffer : Bytes) → R (f.data_function code buffer)
    pub on_download : (code : ℕ) → R (f.download_function code s)
    pub on_up_download : (code : ℕ) (buffer : Bytes) → R (f.updownload_function code buffer s)

  abbrev pub AllDo : Socket → List (ℕ × CallbackFunction (View W Object)) → Type 0
  AllDo s [] = Unit {0}
  AllDo s ((k, f) ∷ m) = Does s f × AllDo s m

module _ {W Object : Type 0} (R : Exec (View W Object) (Unit {0}) → Type 0)
    (nothing : R (λ v. (ok tt, v))) (s : Socket) where
  pub request_class-Does :
      (f : ℕ → Exec (View W Object) (Unit {0}))
      → ((code : ℕ) → R (f code))
      → Does R s (request_class f)
  unfolding base
  request_class-Does f h = record {
    on_request = h;
    on_data = λ code buffer. nothing;
    on_download = λ code. nothing;
    on_up_download = λ code buffer. nothing;
  }

  pub data_class-Does :
      (f : ℕ → Bytes → Exec (View W Object) (Unit {0}))
      → ((code : ℕ) (buffer : Bytes) → R (f code buffer))
      → Does R s (data_class f)
  unfolding base
  data_class-Does f h = record {
    on_request = λ code. nothing;
    on_data = h;
    on_download = λ code. nothing;
    on_up_download = λ code buffer. nothing;
  }

  pub download_class-Does :
      (f : ℕ → Socket → Exec (View W Object) (Unit {0}))
      → ((code : ℕ) → R (f code s))
      → Does R s (download_class f)
  unfolding base
  download_class-Does f h = record {
    on_request = λ code. nothing;
    on_data = λ code buffer. nothing;
    on_download = h;
    on_up_download = λ code buffer. nothing;
  }

  pub updownload_class-Does :
      (f : ℕ → Bytes → Socket → Exec (View W Object) (Unit {0}))
      → ((code : ℕ) (buffer : Bytes) → R (f code buffer s))
      → Does R s (updownload_class f)
  unfolding base
  updownload_class-Does f h = record {
    on_request = λ code. nothing;
    on_data = λ code buffer. nothing;
    on_download = λ code. nothing;
    on_up_download = h;
  }

  choice :
      (b : Bool) (f : CallbackFunction (View W Object))
      (x : Option (CallbackFunction (View W Object)))
      (run : CallbackFunction (View W Object) → Exec (View W Object) (Unit {0}))
      → R (run f)
      → R (when_registered x run)
      → R (when_registered (if b then some f else x) run)
  choice true f x run h g = h
  choice false f x run h g = g

  registered_lem :
      (k : ℕ) (m : List (ℕ × CallbackFunction (View W Object)))
      (run : CallbackFunction (View W Object) → Exec (View W Object) (Unit {0}))
      → AllDo R s m
      → ((f : CallbackFunction (View W Object)) → Does R s f → R (run f))
      → R (when_registered (lookup k m) run)
  unfolding lookup
  registered_lem k [] run h g = nothing
  registered_lem k ((j, f) ∷ m) run h g =
      choice (j == k) f (lookup k m) run (g f h.0) (registered_lem k m run h.1 g)

  if_lem : (b : Bool) (m n : Exec (View W Object) (Unit {0})) → R m → R n → R (if b then m else n)
  if_lem true m n h g = h
  if_lem false m n h g = g

  module _ (sys : System W)
      (received : (size : ℕ) (f : Bytes → Exec (View W Object) (Unit {0}))
        → ((buffer : Bytes) → R (f buffer))
        → R (receive sys s size >>= f)) where
    pub dispatch_lem :
        (p : Packet) (k : ℕ) (m : List (ℕ × CallbackFunction (View W Object)))
        → AllDo R s m
        → R (dispatch sys s p (lookup k m))
    unfolding dispatch
    dispatch_lem p k m h =
        let code = p.control_code in
        if_lem (in_group code ControlCode.group_request) _ _
          (registered_lem k m (λ f. f.request_function code) h (λ f g. g.on_request code))
          (if_lem (in_group code ControlCode.group_data) _ _
            (received (data_size p) _ (λ buffer.
              registered_lem k m (λ f. f.data_function code buffer) h
                (λ f g. g.on_data code buffer)))
            (if_lem (in_group code ControlCode.group_download) _ _
              (registered_lem k m (λ f. f.download_function code s) h (λ f g. g.on_download code))
              (if_lem (in_group code ControlCode.group_up_download) _ _
                (received (data_size p) _ (λ buffer.
                  registered_lem k m (λ f. f.updownload_function code buffer s) h
                    (λ f g. g.on_up_download code buffer)))
                nothing)))
