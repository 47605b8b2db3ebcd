-- ===== src/Server/Steps.antt =====
-- The loop of a connection's thread, cut where the thread waits: for a packet, and before it answers.
use stdsc.Base.{◌≡◌, refl, sym, ap, ◌∙◌, Bool, true, false, Option, none, some, List, [], ◌∷◌}
use stdsc.Exec.{Exception, Result, ok, throws, running, fault, and_then}
use stdsc.System.{System}
use stdsc.Packet.{Packet, new_packet}
use stdsc.Socket.{Socket, time_infinite, recv_packet}
use stdsc.Callback.{Session}
use stdsc.Server.{ThreadException, on_world, answer, serve_packet, exec, set_current_exception}

-- Where a thread stands: at the test of the loop, with a packet to answer, or done, with what its
-- body came to and the exception that it left.
pub data Pc : Type 0 where
  waiting : Pc
  answering : Packet → Pc
  done : Result (Unit {0}) → Option Exception → Pc

-- where the two steps of a round lead
abbrev pub received : Result Packet → Pc
received (ok p) = answering p
received (throws e) = done (ok tt) (some e)
received running = done running none
received fault = done fault none

abbrev pub answered : Result (Unit {0}) → Pc
answered (ok _) = waiting
answered (throws e) = done (ok tt) (some e)
answered running = done running none
answered fault = done fault none

module _ {W Object : Type 0} (sys : System W) (s : Socket) where
  -- One step. The flag is the value of `force_finish`, which only the test of the loop reads.
  unfoldable pub advance : Bool → Pc × Session W Object → Pc × Session W Object
  advance true (waiting, ses) = (done (ok tt) none, ses)
  advance false (waiting, ses) =
      let r = on_world sys s (recv_packet sys s (new_packet 0) time_infinite) ses in
      (received r.0, r.1)
  advance flag (answering p, ses) = let r = answer sys s p ses in (answered r.0, r.1)
  advance flag (done r te, ses) = (done r te, ses)

  -- two steps for each test
  unfoldable pub advance_all : List Bool → Pc × Session W Object → Pc × Session W Object
  advance_all [] x = x
  advance_all (flag ∷ rest) x = advance_all rest (advance flag (advance flag x))

  -- what `exec` comes to where the steps lead here
  abbrev pub outcome :
      ThreadException
      → Pc × Session W Object
      → Result (Unit {0}) × Session W Object × ThreadException
  outcome te (waiting, ses) = (running, ses, te)
  outcome te (answering p, ses) = (running, ses, te)
  outcome te (done r none, ses) = (r, ses, te)
  outcome te (done r (some e), ses) = (r, ses, some e)

  advance_all-done :
      (flags : List Bool) (r : Result (Unit {0})) (e : Option Exception) (ses : Session W Object)
      → advance_all flags (done r e, ses) ≡ (done r e, ses)
  unfolding advance_all advance
  advance_all-done [] r e ses = refl
  advance_all-done (flag ∷ rest) r e ses = advance_all-done rest r e ses

  -- the match on the result of a round, as `exec` has it
  abbrev pub after_round :
      List Bool
      → ThreadException
      → Result (Unit {0}) × Session W Object
      → Result (Unit {0}) × Session W Object × ThreadException
  after_round rest te (ok _, ses) = exec sys s rest ses te
  after_round rest te (throws e, ses) = (ok tt, ses, set_current_exception e te)
  after_round rest te (running, ses) = (running, ses, te)
  after_round rest te (fault, ses) = (fault, ses, te)

  pub exec-after_round :
      (rest : List Bool) (te : ThreadException) (r : Result (Unit {0}) × Session W Object)
      → (elim r.0 [
        | ok _ ↦ exec sys s rest r.1 te
        | throws e ↦ (ok tt, r.1, set_current_exception e te)
        | running ↦ (running, r.1, te)
        | fault ↦ (fault, r.1, te)
      ])
        ≡ after_round rest te r
  exec-after_round rest te (ok _, ses) = refl
  exec-after_round rest te (throws e, ses) = refl
  exec-after_round rest te (running, ses) = refl
  exec-after_round rest te (fault, ses) = refl

  module _ (rest : List Bool) (te : ThreadException)
      (next : (ses : Session W Object)
        → exec sys s rest ses te ≡ outcome te (advance_all rest (waiting, ses))) where
    ended :
        (r : Result (Unit {0})) (e : Option Exception) (ses : Session W Object)
        → outcome te (done r e, ses) ≡ outcome te (advance_all rest (done r e, ses))
    ended r e ses = ap (outcome te) (sym (advance_all-done rest r e ses))

    from_answer :
        (r : Result (Unit {0}) × Session W Object)
        → after_round rest te r ≡ outcome te (advance_all rest (answered r.0, r.1))
    unfolding set_current_exception
    from_answer (ok _, ses) = next ses
    from_answer (throws e, ses) = ended (ok tt) (some e) ses
    from_answer (running, ses) = ended running none ses
    from_answer (fault, ses) = ended fault none ses

    from_packet :
        (r : Result Packet × Session W Object)
        → after_round rest te (and_then r.0 (answer sys s) r.1)
          ≡ outcome te (advance_all rest (advance false (received r.0, r.1)))
    unfolding advance set_current_exception
    from_packet (ok p, ses) = from_answer (answer sys s p ses)
    from_packet (throws e, ses) = ended (ok tt) (some e) ses
    from_packet (running, ses) = ended running none ses
    from_packet (fault, ses) = ended fault none ses

  -- The loop of a connection's thread, along any values of force_finish at its tests, comes to what
  -- its single steps lead to, two steps for each test (receive a packet, answer it): the result, the
  -- session and the exception that the thread leaves are the same.
  exec-advance_all :
      (flags : List Bool) (ses : Session W Object) (te : ThreadException)
      → exec sys s flags ses te ≡ outcome te (advance_all flags (waiting, ses))
  unfolding exec advance_all advance serve_packet
  exec-advance_all [] ses te = refl
  exec-advance_all (true ∷ rest) ses te =
      ended rest te (λ ses'. exec-advance_all rest ses' te) (ok tt) none ses
  exec-advance_all (false ∷ rest) ses te =
      exec-after_round rest te (serve_packet sys s ses)
      ∙ from_packet rest te (λ ses'. exec-advance_all rest ses' te)
          (on_world sys s (recv_packet sys s (new_packet 0) time_infinite) ses)
