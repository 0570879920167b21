-- ===== src/Net/Device/Notified.antt =====
-- The notifications through all turns.
use woa_rk.Base.{
  ℕ, Bool, true, false, [], ◌∷◌, none, some, ◌≡◌, refl, sym, ap, ◌∙◌, inl, inr, bit_or, flag, arith,
}
use woa_rk.Base.Flags.{mask, clear, flag-bit_or, flag-clear, flag-or_if}
use woa_rk.Net.Device.Types.{interrupts_rx, interrupts_tx, channel_tx, channel_rx}
use woa_rk.Net.Device.Interrupts.{
  make_channel_interrupt_enable, interrupt_enable, interrupt_disable, set_rx_queue, arm_rx,
  set_tx_queue, arm_tx,
}
use woa_rk.Net.Device.Told.{Told, Turns-Told}
use woa_rk.Net.Device.Waiting.{
  Running, Turn, Turns, Covered, covered, isr_turn, take_turn, handle_turn, set_rx_turn,
  arm_rx_turn, set_tx_turn, arm_tx_turn, no_turn, then_turn, isr-Covered, take-Covered,
  handle-Covered, rearm-Covered, rearm_turn, any_taken, busy, want_lem,
}

-- The queue is set and its interrupt is about to be armed or taken away.
set_covers : (q w p t : Bool) → covered q w p t (some q) ≡ true
set_covers true w p t = ground arith
set_covers false w p t = ground arith

armed_covers :
    (q w w' p t : Bool)
    → w' ≡ true
    → covered q w p t (some true) ≡ true
    → covered q w' p t none ≡ true
armed_covers q w w' p t e f = ground (arith, e, f)

disarmed_covers :
    (q w w' p t : Bool) → covered q w p t (some false) ≡ true → covered q w' p t none ≡ true
disarmed_covers q w w' p t f = ground (arith, f)

-- The bits of what is wanted.
bits_of :
    (w : ℕ)
    → (flag (bit_or w (mask (interrupts_rx ∷ []))) interrupts_rx ≡ true)
      × (flag (bit_or w (mask (interrupts_rx ∷ []))) interrupts_tx ≡ flag w interrupts_tx)
      × (flag (clear w (mask (interrupts_rx ∷ []))) interrupts_tx ≡ flag w interrupts_tx)
      × (flag (bit_or w (mask (interrupts_tx ∷ []))) interrupts_tx ≡ true)
      × (flag (bit_or w (mask (interrupts_tx ∷ []))) interrupts_rx ≡ flag w interrupts_rx)
      × (flag (clear w (mask (interrupts_tx ∷ []))) interrupts_rx ≡ flag w interrupts_rx)
bits_of w = (
  rw flag-bit_or (ground arith),
  rw flag-bit_or (ground arith),
  rw flag-clear (ground arith),
  rw flag-bit_or (ground arith),
  rw flag-bit_or (ground arith),
  rw flag-clear (ground arith),
)

arm_rx-Covered :
    (queue : Bool) (r : Running)
    → r.rx_arming ≡ some queue
    → Covered r
    → Covered (record r { context = arm_rx queue r.context; rx_arming = none })
unfolding arm_rx interrupt_enable interrupt_disable
arm_rx-Covered true r e v =
    let c = r.context in
    let w = c.interrupts_wanted in
    let (on, tx_on, tx_off, a, b, d) = bits_of w in
    let (wanted, status, rx, tx, told, enabled) =
      want_lem (bit_or w (mask (interrupts_rx ∷ []))) (busy r.taken r.rearming) c v.enabled in
    let before : covered c.rx_queue (flag w interrupts_rx) (flag c.interrupt_status channel_rx)
          (any_taken channel_rx r.taken) (some true)
        ≡ true =
      ap
        (covered c.rx_queue (flag w interrupts_rx) (flag c.interrupt_status channel_rx)
          (any_taken channel_rx r.taken))
        (sym e)
      ∙ v.rx in
    record {
      rx =
          rw (rx, wanted, status)
            (armed_covers c.rx_queue (flag w interrupts_rx) _ (flag c.interrupt_status channel_rx)
              (any_taken channel_rx r.taken) on before);
      tx = rw (tx, wanted, status, tx_on) v.tx;
      enabled = enabled;
    }
arm_rx-Covered false r e v =
    let c = r.context in
    let w = c.interrupts_wanted in
    let (on, tx_on, tx_off, a, b, d) = bits_of w in
    let (wanted, status, rx, tx, told, enabled) =
      want_lem (clear w (mask (interrupts_rx ∷ []))) (busy r.taken r.rearming) c v.enabled in
    let before : covered c.rx_queue (flag w interrupts_rx) (flag c.interrupt_status channel_rx)
          (any_taken channel_rx r.taken) (some false)
        ≡ true =
      ap
        (covered c.rx_queue (flag w interrupts_rx) (flag c.interrupt_status channel_rx)
          (any_taken channel_rx r.taken))
        (sym e)
      ∙ v.rx in
    record {
      rx =
          rw (rx, wanted, status)
            (disarmed_covers c.rx_queue (flag w interrupts_rx) _
              (flag c.interrupt_status channel_rx) (any_taken channel_rx r.taken) before);
      tx = rw (tx, wanted, status, tx_off) v.tx;
      enabled = enabled;
    }

arm_tx-Covered :
    (queue : Bool) (r : Running)
    → r.tx_arming ≡ some queue
    → Covered r
    → Covered (record r { context = arm_tx queue r.context; tx_arming = none })
unfolding arm_tx interrupt_enable interrupt_disable
arm_tx-Covered true r e v =
    let c = r.context in
    let w = c.interrupts_wanted in
    let (a, b, d, on, rx_on, rx_off) = bits_of w in
    let (wanted, status, rx, tx, told, enabled) =
      want_lem (bit_or w (mask (interrupts_tx ∷ []))) (busy r.taken r.rearming) c v.enabled in
    let before : covered c.tx_queue (flag w interrupts_tx) (flag c.interrupt_status channel_tx)
          (any_taken channel_tx r.taken) (some true)
        ≡ true =
      ap
        (covered c.tx_queue (flag w interrupts_tx) (flag c.interrupt_status channel_tx)
          (any_taken channel_tx r.taken))
        (sym e)
      ∙ v.tx in
    record {
      tx =
          rw (tx, wanted, status)
            (armed_covers c.tx_queue (flag w interrupts_tx) _ (flag c.interrupt_status channel_tx)
              (any_taken channel_tx r.taken) on before);
      rx = rw (rx, wanted, status, rx_on) v.rx;
      enabled = enabled;
    }
arm_tx-Covered false r e v =
    let c = r.context in
    let w = c.interrupts_wanted in
    let (a, b, d, on, rx_on, rx_off) = bits_of w in
    let (wanted, status, rx, tx, told, enabled) =
      want_lem (clear w (mask (interrupts_tx ∷ []))) (busy r.taken r.rearming) c v.enabled in
    let before : covered c.tx_queue (flag w interrupts_tx) (flag c.interrupt_status channel_tx)
          (any_taken channel_tx r.taken) (some false)
        ≡ true =
      ap
        (covered c.tx_queue (flag w interrupts_tx) (flag c.interrupt_status channel_tx)
          (any_taken channel_tx r.taken))
        (sym e)
      ∙ v.tx in
    record {
      tx =
          rw (tx, wanted, status)
            (disarmed_covers c.tx_queue (flag w interrupts_tx) _
              (flag c.interrupt_status channel_tx) (any_taken channel_tx r.taken) before);
      rx = rw (rx, wanted, status, rx_off) v.rx;
      enabled = enabled;
    }

Turn-Covered : (a b : Running) → Turn a b → Covered a → Covered b
unfolding set_rx_queue set_tx_queue
Turn-Covered a b (isr_turn mac channel0 r) v = isr-Covered mac channel0 r v
Turn-Covered a b (take_turn r some_status) v = take-Covered r v
Turn-Covered a b (handle_turn before t after r e) v = handle-Covered before t after r e v
Turn-Covered a b (rearm_turn n r e) v = rearm-Covered n r v
Turn-Covered a b (set_rx_turn queue r free) v = record {
  rx =
      set_covers queue (flag r.context.interrupts_wanted interrupts_rx)
        (flag r.context.interrupt_status channel_rx) (any_taken channel_rx r.taken);
  tx = v.tx;
  enabled = v.enabled;
}
Turn-Covered a b (arm_rx_turn queue r half) v = arm_rx-Covered queue r half v
Turn-Covered a b (set_tx_turn queue r free) v = record {
  rx = v.rx;
  tx =
      set_covers queue (flag r.context.interrupts_wanted interrupts_tx)
        (flag r.context.interrupt_status channel_tx) (any_taken channel_tx r.taken);
  enabled = v.enabled;
}
Turn-Covered a b (arm_tx_turn queue r half) v = arm_tx-Covered queue r half v

-- In whatever order interrupts, the locked parts of overlapping runs of the deferred part, and the
-- halves of the functions that set a queue follow each other: whether a queue waits changes only as
-- NetAdapterCx is told once more or the queue is set; and this stays true: a queue that waits to be notified has its interrupt
-- wanted, or its bit in a status that is still to be handled, or its interrupt about to be armed;
-- and the interrupts that are enabled in the channel are those that are wanted, or none while a
-- status is still to be taken or a run of the deferred part has to enable them again.
pub Turns-Covered : (a b : Running) → Turns a b → Covered a → Covered b × Told a b
Turns-Covered a b turns v = (covered_after a b turns v, Turns-Told a b turns)
  where
    covered_after : (a b : Running) → Turns a b → Covered a → Covered b
    covered_after a b (no_turn r) v = v
    covered_after a b (then_turn {b = m} turns turn) v =
        Turn-Covered m b turn (covered_after a m turns v)

-- The enabled interrupts of the channel.
rx_enabled :
    (w : ℕ) → flag w interrupts_rx ≡ true → flag (make_channel_interrupt_enable w) channel_rx ≡ true
unfolding make_channel_interrupt_enable
rx_enabled w e = rw (flag-or_if, flag-or_if, flag-or_if, e) (ground arith)

tx_enabled :
    (w : ℕ) → flag w interrupts_tx ≡ true → flag (make_channel_interrupt_enable w) channel_tx ≡ true
unfolding make_channel_interrupt_enable
tx_enabled w e = rw (flag-or_if, flag-or_if, e) (ground arith)

quiet_covered :
    (q w p t : Bool) → p ≡ false → t ≡ false → q ≡ true → covered q w p t none ≡ true → w ≡ true
quiet_covered q w p t e f g h = ground (arith, e, f, g, h)

-- In whatever order interrupts, the locked parts of overlapping runs of the deferred part, and the
-- halves of the functions that set a queue follow each other, from a state in which each queue that
-- waits is covered and the enabled interrupts are those that are wanted or about to be: when no
-- status is left to be taken or handled, no run of the deferred part has to enable the interrupts
-- again, and no function is half done, the interrupt of each queue that waits to be notified is
-- enabled in the channel.
pub Turns-enabled :
    (a b : Running)
    → Turns a b
    → Covered a
    → b.context.interrupt_status ≡ 0
    → b.taken ≡ []
    → b.rearming ≡ 0
    → b.rx_arming ≡ none
    → b.tx_arming ≡ none
    → (b.context.rx_queue ≡ true → flag b.context.channel_enable channel_rx ≡ true)
      × (b.context.tx_queue ≡ true → flag b.context.channel_enable channel_tx ≡ true)
Turns-enabled a b turns v idle free over rx_none tx_none =
    let (g, told) = Turns-Covered a b turns v in
    let c = b.context in
    let no_status : (k : ℕ) → flag 0 k ≡ false → flag c.interrupt_status k ≡ false =
      λ k e. ap (λ x. flag x k) idle ∙ e in
    let no_taken : (k : ℕ) → any_taken k b.taken ≡ false = λ k. ap (any_taken k) free in
    let quiet : busy b.taken b.rearming ≡ false =
      ap (λ l. busy l b.rearming) free ∙ ap (busy []) over in
    let same : c.channel_enable ≡ make_channel_interrupt_enable c.interrupts_wanted =
      elim (g.enabled) [
        | inl e ↦ e
        | inr (e, inl f) ↦ absurd (f idle)
        | inr (e, inr f) ↦ absurd (ground (arith, quiet, f))
      ] in
    (
      (λ waits.
          ap (λ x. flag x channel_rx) same
          ∙ rx_enabled c.interrupts_wanted (
              quiet_covered c.rx_queue (flag c.interrupts_wanted interrupts_rx)
                (flag c.interrupt_status channel_rx) (any_taken channel_rx b.taken)
                (no_status channel_rx refl) (no_taken channel_rx) waits
                (ap
                    (covered c.rx_queue (flag c.interrupts_wanted interrupts_rx)
                      (flag c.interrupt_status channel_rx) (any_taken channel_rx b.taken))
                    (sym rx_none)
                  ∙ g.rx))),
      λ waits.
          ap (λ x. flag x channel_tx) same
          ∙ tx_enabled c.interrupts_wanted (
              quiet_covered c.tx_queue (flag c.interrupts_wanted interrupts_tx)
                (flag c.interrupt_status channel_tx) (any_taken channel_tx b.taken)
                (no_status channel_tx refl) (no_taken channel_tx) waits
                (ap
                    (covered c.tx_queue (flag c.interrupts_wanted interrupts_tx)
                      (flag c.interrupt_status channel_tx) (any_taken channel_tx b.taken))
                    (sym tx_none)
                  ∙ g.tx)),
    )
