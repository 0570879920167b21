-- ===== src/Net/Device/Waiting.antt =====
-- No notification is lost: interrupts, the turns of the deferred part and the two halves of the
-- functions that set a queue to be notified, in any order.
use woa_rk.Base.{
  ℕ, suc, List, [], ◌∷◌, ◌++◌, Bool, true, false, not, ◌||◌, ◌&&◌, Option, none, some, ◌≡◌, ◌≢◌,
  refl, sym, ap, ◌∙◌, ◌⊎◌, inl, inr, Bool-cases, bit_or, flag, ◌==◌, ==_iff, arith,
}
use woa_rk.Base.Bits.{bit_or-eq-zero}
use woa_rk.Base.Flags.{flag-bit_or, flag-clear}
use woa_rk.Net.Device.Types.{DeviceContext, interrupts_rx, interrupts_tx, channel_tx, channel_rx}
use woa_rk.Net.Device.Interrupts.{
  make_channel_interrupt_enable, interrupt_set, want, new_status, still_wanted, interrupt_isr,
  dpc_take, dpc_handle, dpc_rearm, set_rx_queue, arm_rx, set_tx_queue, arm_tx,
}
use woa_rk.Net.Device.Turns.{dpc_handle-Turned, rearmed}

-- The context, the statuses that runs of the deferred part have taken and not handled, the number of
-- runs that have handled theirs and are to enable the interrupts again, and what the second half of
-- a function that sets a queue is to do, if its first half is done. `rx_sets` and `tx_sets` count the
-- calls that set a queue.
pub record Running : Type 0 where
  pub context : DeviceContext
  pub taken : List ℕ
  pub rearming : ℕ
  pub rx_arming : Option Bool
  pub tx_arming : Option Bool
  pub rx_sets : ℕ
  pub tx_sets : ℕ

-- What runs under one lock. The deferred part takes a status, handles it under the lock of the
-- queues and enables the interrupts again under the lock of the interrupt; any number of its runs may
-- overlap, and all else may come between. The functions that set the same queue do not overlap.
pub data Turn : Running → Running → Type 0 where
  isr_turn :
      (mac channel0 : ℕ) (r : Running)
      → Turn r (record r { context = (interrupt_isr mac channel0 r.context).0 })
  take_turn :
      (r : Running)
      → r.context.interrupt_status ≢ 0
      → Turn r
          (record r { context = (dpc_take r.context).0; taken = (dpc_take r.context).1 ∷ r.taken })
  handle_turn :
      (before : List ℕ) (t : ℕ) (after : List ℕ) (r : Running)
      → r.taken ≡ before ++ t ∷ after
      → Turn r (record r {
        context = dpc_handle t r.context;
        taken = before ++ after;
        rearming = suc r.rearming;
      })
  rearm_turn :
      (n : ℕ) (r : Running)
      → r.rearming ≡ suc n
      → Turn r (record r { context = dpc_rearm r.context; rearming = n })
  set_rx_turn :
      (queue : Bool) (r : Running)
      → r.rx_arming ≡ none
      → Turn r (record r {
        context = set_rx_queue queue r.context;
        rx_arming = some queue;
        rx_sets = suc r.rx_sets;
      })
  arm_rx_turn :
      (queue : Bool) (r : Running)
      → r.rx_arming ≡ some queue
      → Turn r (record r { context = arm_rx queue r.context; rx_arming = none })
  set_tx_turn :
      (queue : Bool) (r : Running)
      → r.tx_arming ≡ none
      → Turn r (record r {
        context = set_tx_queue queue r.context;
        tx_arming = some queue;
        tx_sets = suc r.tx_sets;
      })
  arm_tx_turn :
      (queue : Bool) (r : Running)
      → r.tx_arming ≡ some queue
      → Turn r (record r { context = arm_tx queue r.context; tx_arming = none })

pub data Turns : Running → Running → Type 0 where
  no_turn : (r : Running) → Turns r r
  then_turn : {a b c : Running} → Turns a b → Turn b c → Turns a c

-- The second half that is to come arms the interrupt, or takes it away.
abbrev pub arms : Option Bool → Bool
arms none = false
arms (some queue) = queue

abbrev pub disarms : Option Bool → Bool
disarms none = false
disarms (some queue) = not queue

-- A queue that waits is covered: its interrupt is wanted, or its bit is in a status that is still to
-- be handled, or its interrupt is about to be armed. And a queue whose interrupt is about to be
-- taken away does not wait.
abbrev pub covered : (waits wanted pending taken : Bool) → Option Bool → Bool
covered waits wanted pending taken arming =
    (not waits || (wanted || (pending || (taken || arms arming)))) && not (disarms arming && waits)

-- The bit is in one of the statuses that were taken.
abbrev pub any_taken : (k : ℕ) → List ℕ → Bool
any_taken k [] = false
any_taken k (t ∷ ts) = flag t k || any_taken k ts

-- A run of the deferred part has still to enable the interrupts again.
abbrev pub busy : List ℕ → (rearming : ℕ) → Bool
busy [] rearming = not (rearming == 0)
busy (t ∷ ts) rearming = true

-- The interrupts that are enabled in the device are those that are wanted, or none while a status is
-- still to be taken or a run of the deferred part to enable them again.
abbrev pub Enabled : (channel wanted status : ℕ) (running : Bool) → Type 0
Enabled channel wanted status running =
    (channel ≡ make_channel_interrupt_enable wanted)
    ⊎ ((channel ≡ make_channel_interrupt_enable 0) × ((status ≢ 0) ⊎ (running ≡ true)))

pub record Covered (r : Running) : Type 0 where
  pub rx :
      covered r.context.rx_queue
        (flag r.context.interrupts_wanted interrupts_rx)
        (flag r.context.interrupt_status channel_rx)
        (any_taken channel_rx r.taken)
        r.rx_arming
      ≡ true
  pub tx :
      covered r.context.tx_queue
        (flag r.context.interrupts_wanted interrupts_tx)
        (flag r.context.interrupt_status channel_tx)
        (any_taken channel_tx r.taken)
        r.tx_arming
      ≡ true
  pub enabled :
      Enabled r.context.channel_enable r.context.interrupts_wanted r.context.interrupt_status
        (busy r.taken r.rearming)

-- What stays wanted behind the interrupt routine.
rx_stays :
    (s w : ℕ)
    → flag s channel_rx ≡ false
    → flag (still_wanted s w) interrupts_rx ≡ flag w interrupts_rx
unfolding still_wanted
rx_stays s w e = elim (Bool-cases (flag s channel_tx)) [
  | inl f ↦ rw (e, f, flag-clear) (ground arith)
  | inr f ↦ rw (e, f) refl
]

tx_stays :
    (s w : ℕ)
    → flag s channel_tx ≡ false
    → flag (still_wanted s w) interrupts_tx ≡ flag w interrupts_tx
unfolding still_wanted
tx_stays s w e = elim (Bool-cases (flag s channel_rx)) [
  | inl f ↦ rw (e, f, flag-clear) (ground arith)
  | inr f ↦ rw (e, f) refl
]

-- A status with the bit covers the queue; without it nothing is taken away.
pending_covers :
    (q w w' p t s : Bool) (a : Option Bool)
    → (s ≡ false → w' ≡ w)
    → covered q w p t a ≡ true
    → covered q w' (p || s) t a ≡ true
pending_covers q w w' p t true a same e = ground (arith, e)
pending_covers q w w' p t false a same e = let f = same refl in rw f (ground (arith, e))

pub isr-Covered :
    (mac channel0 : ℕ) (r : Running)
    → Covered r
    → Covered (record r { context = (interrupt_isr mac channel0 r.context).0 })
unfolding interrupt_isr interrupt_set
isr-Covered mac channel0 r v = elim (Bool-cases (new_status mac channel0 == 0)) [
  | inl e ↦ rw (e, interrupt_isr) (record { rx = v.rx; tx = v.tx; enabled = v.enabled })
  | inr e ↦
      let s = new_status mac channel0 in
      let c = r.context in
      let w = c.interrupts_wanted in
      let some_new : bit_or c.interrupt_status s ≢ 0 =
        λ f. absurd (ground (arith, e, (bit_or-eq-zero c.interrupt_status s f).1)) in
      rw (e, interrupt_isr)
        (record {
          rx = rw flag-bit_or (
              pending_covers c.rx_queue (flag w interrupts_rx)
                (flag (still_wanted s w) interrupts_rx) (flag c.interrupt_status channel_rx)
                (any_taken channel_rx r.taken) (flag s channel_rx) r.rx_arming (rx_stays s w) v.rx);
          tx = rw flag-bit_or (
              pending_covers c.tx_queue (flag w interrupts_tx)
                (flag (still_wanted s w) interrupts_tx) (flag c.interrupt_status channel_tx)
                (any_taken channel_tx r.taken) (flag s channel_tx) r.tx_arming (tx_stays s w) v.tx);
          enabled = inr (refl, inl some_new);
        })
]

-- What waited in the register is now among what was taken.
taken_covers :
    (q w p t : Bool) (a : Option Bool)
    → covered q w p t a ≡ true
    → covered q w false (p || t) a ≡ true
taken_covers q w p t a f = ground (arith, f)

pub take-Covered :
    (r : Running)
    → Covered r
    → Covered
        (record r { context = (dpc_take r.context).0; taken = (dpc_take r.context).1 ∷ r.taken })
unfolding dpc_take
take-Covered r v =
    let c = r.context in
    record {
      rx =
          taken_covers c.rx_queue (flag c.interrupts_wanted interrupts_rx)
            (flag c.interrupt_status channel_rx) (any_taken channel_rx r.taken) r.rx_arming v.rx;
      tx =
          taken_covers c.tx_queue (flag c.interrupts_wanted interrupts_tx)
            (flag c.interrupt_status channel_tx) (any_taken channel_tx r.taken) r.tx_arming v.tx;
      enabled = elim (v.enabled) [ inl e ↦ inl e | inr (e, f) ↦ inr (e, inr refl) ];
    }

-- One of the statuses that were taken, and the others.
any_taken-append :
    (k : ℕ) (before : List ℕ) (t : ℕ) (after : List ℕ)
    → any_taken k (before ++ t ∷ after) ≡ (flag t k || any_taken k (before ++ after))
any_taken-append k [] t after = refl
any_taken-append k (b ∷ before) t after =
    ap (λ x. flag b k || x) (any_taken-append k before t after)
    ∙ swap (flag b k) (flag t k) (any_taken k (before ++ after))
  where
    swap : (x y z : Bool) → (x || (y || z)) ≡ (y || (x || z))
    swap x y z = ground arith

-- The queue was told.
handled_covers :
    (q w p s t t' : Bool) (a : Option Bool)
    → t ≡ (s || t')
    → covered q w p t a ≡ true
    → covered (q && not s) w p t' a ≡ true
handled_covers q w p true t t' a same e = ground (arith, same, e)
handled_covers q w p false t t' a same e = ground (arith, same, e)

busy-suc : (l : List ℕ) (n : ℕ) → busy l (suc n) ≡ true
busy-suc [] n = ground arith
busy-suc (t ∷ ts) n = refl

pub handle-Covered :
    (before : List ℕ) (t : ℕ) (after : List ℕ) (r : Running)
    → r.taken ≡ before ++ t ∷ after
    → Covered r
    → Covered (record r {
      context = dpc_handle t r.context;
      taken = before ++ after;
      rearming = suc r.rearming;
    })
handle-Covered before t after r e v =
    let c = r.context in
    let d = dpc_handle-Turned t c in
    let among : (k : ℕ) → any_taken k r.taken ≡ (flag t k || any_taken k (before ++ after)) =
      λ k. ap (any_taken k) e ∙ any_taken-append k before t after in
    record {
      rx =
          rw (d.rx, d.wanted, d.status)
            (handled_covers c.rx_queue (flag c.interrupts_wanted interrupts_rx)
              (flag c.interrupt_status channel_rx) (flag t channel_rx)
              (any_taken channel_rx r.taken) (any_taken channel_rx (before ++ after)) r.rx_arming
              (among channel_rx) v.rx);
      tx =
          rw (d.tx, d.wanted, d.status)
            (handled_covers c.tx_queue (flag c.interrupts_wanted interrupts_tx)
              (flag c.interrupt_status channel_tx) (flag t channel_tx)
              (any_taken channel_tx r.taken) (any_taken channel_tx (before ++ after)) r.tx_arming
              (among channel_tx) v.tx);
      enabled = elim (v.enabled) [
        | inl f ↦ inl (d.channel ∙ f ∙ ap make_channel_interrupt_enable (sym d.wanted))
        | inr (f, g) ↦ inr (d.channel ∙ f, inr (busy-suc (before ++ after) r.rearming))
      ];
    }

pub rearm-Covered :
    (n : ℕ) (r : Running)
    → Covered r
    → Covered (record r { context = dpc_rearm r.context; rearming = n })
rearm-Covered n r v =
    let c = r.context in
    let (wanted, status, rx, tx, channel, told) = rearmed c in
    let again = ap make_channel_interrupt_enable (sym wanted) in
    record {
      rx = rw (rx, wanted, status) v.rx;
      tx = rw (tx, wanted, status) v.tx;
      enabled = elim channel [
        | inl e ↦ inl (e ∙ again)
        | inr (off, same) ↦ elim (v.enabled) [
          | inl e ↦ inl (same ∙ e ∙ again)
          | inr (e, f) ↦ inl (same ∙ e ∙ ap make_channel_interrupt_enable (sym off) ∙ again)
        ]
      ];
    }

-- What a change of the wanted interrupts does.
pub want_lem :
    (w : ℕ) (t : Bool) (c : DeviceContext)
    → Enabled c.channel_enable c.interrupts_wanted c.interrupt_status t
    → ((want w c).interrupts_wanted ≡ w)
      × ((want w c).interrupt_status ≡ c.interrupt_status)
      × ((want w c).rx_queue ≡ c.rx_queue)
      × ((want w c).tx_queue ≡ c.tx_queue)
      × ((want w c).told ≡ c.told)
      × Enabled (want w c).channel_enable (want w c).interrupts_wanted (want w c).interrupt_status t
unfolding want interrupt_set
want_lem w t c e = elim (Bool-cases (c.interrupts_wanted == w)) [
  | inl f ↦ rw (f, want) ((==_iff (c.interrupts_wanted) w).0 f, refl, refl, refl, refl, e)
  | inr f ↦ rw (f, want) (refl, refl, refl, refl, refl, inl refl)
]
