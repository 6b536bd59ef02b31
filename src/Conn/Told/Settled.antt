-- ===== src/Conn/Told/Settled.antt =====
-- src/utp_conn.ts: the promise of `waitForConnecting` is settled by the states that its listener is told of.
use mathlib.Core.Option.{some-ne-none}
use mathlib.Core.Bool.{false≢true}
use utp.Base.{
  ◌≡◌, refl, sym, ◌∙◌, ap, Bool, true, false, Bool-cases, inl, inr, List, [], ◌∷◌, none, some, ◌==◌,
  if◌then◌else◌,
}
use utp.Base.Number.{JsNumber}
use utp.BlockingBuffer.{ByteBuffer}
use utp.Conn.{
  Conn, State, Effect, state_number, transmit, go_on, resolve_read, remove_conn, release_statistic,
  received_data, sent_data, state_changed, syn_sent, syn_recv, connected, reset, close_wait, closed,
}
use utp.Conn.Promises.{Promise, waiting, resolved, rejected, on_state_change, hear}
use utp.Conn.Calls.{Call, run}
use utp.Conn.Told.{told}
use utp.Conn.Told.Calls.{run-IsTold}

-- the states that settle the promise
abbrev pub is_settling : State → Bool
is_settling connected = true
is_settling reset = true
is_settling closed = true
is_settling syn_sent = false
is_settling syn_recv = false
is_settling close_wait = false

abbrev pub is_pending : Promise → Bool
is_pending waiting = true
is_pending resolved = false
is_pending (rejected _) = false

hear-settled :
    (es : List Effect) (w : Promise) → is_pending w ≡ false → is_pending (hear w es) ≡ false
unfolding hear on_state_change
hear-settled [] w e = e
hear-settled (state_changed s t ∷ es) waiting e = absurd (false≢true (sym e))
hear-settled (state_changed s t ∷ es) resolved e = hear-settled es resolved e
hear-settled (state_changed s t ∷ es) (rejected r) e = hear-settled es (rejected r) e
hear-settled (transmit p a ∷ es) w e = hear-settled es w e
hear-settled (go_on k x ∷ es) w e = hear-settled es w e
hear-settled (resolve_read r ∷ es) w e = hear-settled es w e
hear-settled (remove_conn ∷ es) w e = hear-settled es w e
hear-settled (release_statistic ∷ es) w e = hear-settled es w e
hear-settled (received_data n ∷ es) w e = hear-settled es w e
hear-settled (sent_data n ∷ es) w e = hear-settled es w e

on_state_change-is_pending :
    (t : State) → is_pending (on_state_change waiting t) ≡ (if is_settling t then false else true)
unfolding on_state_change
on_state_change-is_pending syn_sent = refl
on_state_change-is_pending syn_recv = refl
on_state_change-is_pending connected = refl
on_state_change-is_pending reset = refl
on_state_change-is_pending close_wait = refl
on_state_change-is_pending closed = refl

still_waiting : (w : Promise) → is_pending w ≡ true → w ≡ waiting
still_waiting waiting e = refl
still_waiting resolved e = absurd (false≢true e)
still_waiting (rejected r) e = absurd (false≢true e)

some-state : (s t : State) → some s ≡ some t → is_settling s ≡ is_settling t
some-state s t e = ap (λ o. elim o [ none ↦ false | some u ↦ is_settling u ]) e

told-settles :
    (es : List Effect) (s t : State)
    → told s es ≡ some t
    → is_settling s ≡ false
    → is_settling t ≡ true
    → is_pending (hear waiting es) ≡ false
unfolding hear
told-settles [] s t e n y = absurd (false≢true (sym n ∙ some-state s t e ∙ y))
told-settles (state_changed before after ∷ es) s t e n y =
    elim (Bool-cases (state_number before == state_number s)) [
      | inl same ↦ elim (Bool-cases (is_settling after)) [
        | inl settles ↦
            hear-settled es (on_state_change waiting after)
              (rw (on_state_change-is_pending after, settles) refl)
        | inr goes_on ↦
            let known : told s (state_changed before after ∷ es) ≡ told after es = rw same refl in
            rw
              (still_waiting (on_state_change waiting after)
                (rw (on_state_change-is_pending after, goes_on) refl))
              (told-settles es after t (sym known ∙ e) goes_on y)
      ]
      | inr other ↦
          let unknown : told s (state_changed before after ∷ es) ≡ none = rw other refl in
          absurd (some-ne-none t (sym e ∙ unknown))
    ]
told-settles (transmit p a ∷ es) s t e n y = told-settles es s t e n y
told-settles (go_on k x ∷ es) s t e n y = told-settles es s t e n y
told-settles (resolve_read r ∷ es) s t e n y = told-settles es s t e n y
told-settles (remove_conn ∷ es) s t e n y = told-settles es s t e n y
told-settles (release_statistic ∷ es) s t e n y = told-settles es s t e n y
told-settles (received_data k ∷ es) s t e n y = told-settles es s t e n y
told-settles (sent_data k ∷ es) s t e n y = told-settles es s t e n y

module _ (𝓝 : JsNumber) (𝓑 : ByteBuffer) where
  -- A promise of `waitForConnecting` whose listener is there, on a connection that is not yet connected, reset or closed,
  -- is settled by any calls that make it so: none is left waiting for a state that has come.
  pub promise_settled :
      (calls : List Call) (c : Conn 𝓝 𝓑)
      → is_settling c.local_state ≡ false
      → is_settling (run 𝓝 𝓑 c calls).0.local_state ≡ true
      → is_pending (hear waiting (run 𝓝 𝓑 c calls).1) ≡ false
  promise_settled calls c n y =
      told-settles (run 𝓝 𝓑 c calls).1 c.local_state (run 𝓝 𝓑 c calls).0.local_state
        (run-IsTold 𝓝 𝓑 calls c) n y
