-- ===== src/Connection/Loop/Stall.antt =====
-- The rounds of `_handleExpected` in vncdotool/rfb.py after a security handler has returned False.
use awc_remote.Base.{
  ℕ, zero, suc, ◌≡◌, refl, ◌∙◌, ap, Bool, true, false, not, ◌&&◌, ◌||◌, length, drop, leb, arith,
}
use awc_remote.Generator.{done}
use awc_remote.Client.{Library}
use awc_remote.Connection.{Conn, pump_security}
use awc_remote.Connection.Handshake.{finish_security, pump_security_gen}
use awc_remote.Connection.Dispatch.{dispatch}
use awc_remote.Connection.Loop.{ready, round, drain}
use awc_remote.Generator.Resume.{resume}

ready_of : (n len : ℕ) (ended : Bool) → n ≡ 0 → ended ≡ false → leb n len && not ended ≡ true
ready_of n len ended e r = ground arith

module _ (lib : Library) (c : Conn) (unawaited : c.expected_len ≡ 0)
    (running : c.aborted || c.crashed ≡ false) where
  round_once : round lib (finish_security false c) ≡ finish_security false c
  unfolding round dispatch pump_security_gen finish_security resume
  round_once =
      ap (λ n. record c { handler = pump_security (λ _. done false); packet = drop n c.packet })
        unawaited

  still_ready : ready (finish_security false c) ≡ true
  unfolding ready finish_security
  still_ready = ready_of c.expected_len (length c.packet) (c.aborted || c.crashed) unawaited running

  stays :
      (fuel : ℕ) (r : Bool)
      → r ≡ true
      → drain fuel lib (round lib (finish_security false c)) ≡ finish_security false c
      → elim r [
        | true ↦ drain fuel lib (round lib (finish_security false c))
        | false ↦ finish_security false c
      ]
        ≡ finish_security false c
  stays fuel true e h = h
  stays fuel false e h = refl

  spins : (fuel : ℕ) → drain fuel lib (finish_security false c) ≡ finish_security false c
  unfolding drain
  spins zero = refl
  spins (suc fuel) =
      stays fuel (ready (finish_security false c)) still_ready
        (ap (drain fuel lib) round_once ∙ spins fuel)

-- When a security handler reports failure while the length that is awaited is 0, the loop never ends:
-- after any number of rounds the state is the one that it started with, and the loop still goes on.
pub drain-finish_security :
    (fuel : ℕ) (lib : Library) (c : Conn)
    → c.expected_len ≡ 0
    → c.aborted || c.crashed ≡ false
    → (drain fuel lib (finish_security false c) ≡ finish_security false c)
      × (ready (drain fuel lib (finish_security false c)) ≡ true)
drain-finish_security fuel lib c e r =
    (spins lib c e r fuel, ap ready (spins lib c e r fuel) ∙ still_ready lib c e r)
