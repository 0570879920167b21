-- ===== src/Net/Device/Told.antt =====
-- drivers/net/dwc_eqos/device.cpp: a queue ceases to wait only when NetAdapterCx is told or the
-- queue is set.
use woa_rk.Base.{
  ℕ, suc, ◌≤◌, ◌<◌, Bool, ◌||◌, ◌&&◌, List, [], ◌∷◌, ◌≡◌, refl, ap, ◌∙◌, ◌⊎◌, inl, inr, Bool-cases,
  if◌then◌else◌, flag, ◌==◌, true, false, arith,
}
use woa_rk.Net.Device.Types.{
  DeviceContext, Notification, more_received, more_completed, dpc_queued, link_work_queued,
  channel_tx, channel_rx, interrupt_link_status, channel_abnormal_summary, channel_fatal_bus_error,
}
use woa_rk.Net.Device.Interrupts.{
  interrupt_isr, interrupt_set, want, interrupt_enable, interrupt_disable, new_status, dpc_take,
  dpc_link, dpc_notify_rx, dpc_notify_tx, dpc_errors, dpc_handle, set_rx_queue, arm_rx,
  set_tx_queue, arm_tx,
}
use woa_rk.Net.Device.Turns.{rearmed}
use woa_rk.Net.Device.Waiting.{
  Running, Turn, Turns, isr_turn, take_turn, handle_turn, rearm_turn, set_rx_turn, arm_rx_turn,
  set_tx_turn, arm_tx_turn, no_turn, then_turn,
}

-- How often NetAdapterCx was told of received and of completed packets.
abbrev pub rx_told : List Notification → ℕ
rx_told [] = 0
rx_told (more_received ∷ l) = suc (rx_told l)
rx_told (more_completed ∷ l) = rx_told l
rx_told (dpc_queued ∷ l) = rx_told l
rx_told (link_work_queued ∷ l) = rx_told l

abbrev pub tx_told : List Notification → ℕ
tx_told [] = 0
tx_told (more_completed ∷ l) = suc (tx_told l)
tx_told (more_received ∷ l) = tx_told l
tx_told (dpc_queued ∷ l) = tx_told l
tx_told (link_work_queued ∷ l) = tx_told l

-- Whether the queue waits has not changed, or NetAdapterCx was told once more, or the queue was set.
abbrev pub Accounted : (waits waits' : Bool) (told told' sets sets' : ℕ) → Type 0
Accounted waits waits' told told' sets sets' =
    (told ≤ told') × (sets ≤ sets') × ((waits' ≡ waits) ⊎ (told < told') ⊎ (sets < sets'))

Accounted-trans :
    {w w' w'' : Bool} {t t' t'' s s' s'' : ℕ}
    → Accounted w w' t t' s s'
    → Accounted w' w'' t' t'' s' s''
    → Accounted w w'' t t'' s s''
Accounted-trans (t, s, why) (t', s', why') = (
  omega (arith, t, t'),
  omega (arith, s, s'),
  elim why [
    | inr (inl e) ↦ inr (inl (omega (arith, e, t')))
    | inr (inr e) ↦ inr (inr (omega (arith, e, s')))
    | inl e ↦ elim why' [
      | inl f ↦ inl (f ∙ e)
      | inr (inl f) ↦ inr (inl (omega (arith, t, f)))
      | inr (inr f) ↦ inr (inr (omega (arith, s, f)))
    ]
  ],
)

Accounted-same : {w w' : Bool} {t t' : ℕ} (s : ℕ) → w' ≡ w → t' ≡ t → Accounted w w' t t' s s
Accounted-same s e f = (omega (arith, f), omega arith, inl e)

-- Both queues, through a change of the context.
Change : (s u : ℕ) (c g : DeviceContext) → Type 0
Change s u c g =
    Accounted c.rx_queue g.rx_queue (rx_told c.told) (rx_told g.told) s s
    × Accounted c.tx_queue g.tx_queue (tx_told c.told) (tx_told g.told) u u

Change-trans : (s u : ℕ) (a b c : DeviceContext) → Change s u a b → Change s u b c → Change s u a c
unfolding Change
Change-trans s u a b c (x, y) (x', y') = (Accounted-trans x x', Accounted-trans y y')

as_before :
    (s u : ℕ) (c g : DeviceContext)
    → g.rx_queue ≡ c.rx_queue
    → g.tx_queue ≡ c.tx_queue
    → rx_told g.told ≡ rx_told c.told
    → tx_told g.told ≡ tx_told c.told
    → Change s u c g
unfolding Change
as_before s u c g rx tx rx_same tx_same = (Accounted-same s rx rx_same, Accounted-same u tx tx_same)

isr-Change :
    (s u mac channel0 : ℕ) (c : DeviceContext) → Change s u c (interrupt_isr mac channel0 c).0
unfolding interrupt_isr interrupt_set
isr-Change s u mac channel0 c = elim (Bool-cases (new_status mac channel0 == 0)) [
  | inl e ↦
      as_before s u c (interrupt_isr mac channel0 c).0 (rw (e, interrupt_isr) refl)
        (rw (e, interrupt_isr) refl) (rw (e, interrupt_isr) refl) (rw (e, interrupt_isr) refl)
  | inr e ↦
      as_before s u c (interrupt_isr mac channel0 c).0 (rw (e, interrupt_isr) refl)
        (rw (e, interrupt_isr) refl) (rw (e, interrupt_isr) refl) (rw (e, interrupt_isr) refl)
]

dpc_link-Change : (s u t : ℕ) (c : DeviceContext) → Change s u c (dpc_link t c)
unfolding dpc_link
dpc_link-Change s u t c = elim (Bool-cases (flag t interrupt_link_status)) [
  | inl e ↦
      as_before s u c (dpc_link t c) (rw (e, dpc_link) refl) (rw (e, dpc_link) refl)
        (rw (e, dpc_link) refl) (rw (e, dpc_link) refl)
  | inr e ↦
      as_before s u c (dpc_link t c) (rw (e, dpc_link) refl) (rw (e, dpc_link) refl)
        (rw (e, dpc_link) refl) (rw (e, dpc_link) refl)
]

dpc_errors-Change : (s u t : ℕ) (c : DeviceContext) → Change s u c (dpc_errors t c)
unfolding dpc_errors
dpc_errors-Change s u t c =
    elim (Bool-cases (flag t channel_abnormal_summary || flag t channel_fatal_bus_error)) [
      | inl e ↦
          as_before s u c (dpc_errors t c) (rw (e, dpc_errors) refl) (rw (e, dpc_errors) refl)
            (rw (e, dpc_errors) refl) (rw (e, dpc_errors) refl)
      | inr e ↦
          as_before s u c (dpc_errors t c) (rw (e, dpc_errors) refl) (rw (e, dpc_errors) refl)
            (rw (e, dpc_errors) refl) (rw (e, dpc_errors) refl)
    ]

dpc_notify_rx-Change : (s u t : ℕ) (c : DeviceContext) → Change s u c (dpc_notify_rx t c)
unfolding dpc_notify_rx Change
dpc_notify_rx-Change s u t c = elim (Bool-cases (c.rx_queue && flag t channel_rx)) [
  | inl e ↦
      rw (e, dpc_notify_rx)
        ((omega arith, omega arith, inr (inl (omega arith))), Accounted-same u refl refl)
  | inr e ↦ rw (e, dpc_notify_rx) (Accounted-same s refl refl, Accounted-same u refl refl)
]

dpc_notify_tx-Change : (s u t : ℕ) (c : DeviceContext) → Change s u c (dpc_notify_tx t c)
unfolding dpc_notify_tx Change
dpc_notify_tx-Change s u t c = elim (Bool-cases (c.tx_queue && flag t channel_tx)) [
  | inl e ↦
      rw (e, dpc_notify_tx)
        (Accounted-same s refl refl, (omega arith, omega arith, inr (inl (omega arith))))
  | inr e ↦ rw (e, dpc_notify_tx) (Accounted-same s refl refl, Accounted-same u refl refl)
]

if_both :
    (s u : ℕ) (b : Bool) (c x y : DeviceContext)
    → Change s u c x
    → Change s u c y
    → Change s u c (if b then x else y)
if_both s u true c x y p q = p
if_both s u false c x y p q = q

dpc_handle-Change : (s u t : ℕ) (c : DeviceContext) → Change s u c (dpc_handle t c)
unfolding dpc_handle
dpc_handle-Change s u t c =
    let l = dpc_link t c in
    let n = dpc_notify_rx t l in
    let m = dpc_notify_tx t n in
    let told = flag t channel_rx || flag t channel_tx in
    let q : DeviceContext = if told then m else l in
    let link = dpc_link-Change s u t c in
    let notified =
      Change-trans s u c n m (Change-trans s u c l n link (dpc_notify_rx-Change s u t l))
        (dpc_notify_tx-Change s u t n) in
    Change-trans s u c q (dpc_errors t q) (if_both s u told c m l notified link)
      (dpc_errors-Change s u t q)

want-Change : (s u w : ℕ) (c : DeviceContext) → Change s u c (want w c)
unfolding want interrupt_set
want-Change s u w c = elim (Bool-cases (c.interrupts_wanted == w)) [
  | inl e ↦
      as_before s u c (want w c) (rw (e, want) refl) (rw (e, want) refl) (rw (e, want) refl)
        (rw (e, want) refl)
  | inr e ↦
      as_before s u c (want w c) (rw (e, want) refl) (rw (e, want) refl) (rw (e, want) refl)
        (rw (e, want) refl)
]

-- Through turns, each queue is accounted for.
abbrev pub Told : (a b : Running) → Type 0
Told a b =
    Accounted a.context.rx_queue b.context.rx_queue (rx_told a.context.told)
      (rx_told b.context.told) a.rx_sets b.rx_sets
    × Accounted a.context.tx_queue b.context.tx_queue (tx_told a.context.told)
        (tx_told b.context.told) a.tx_sets b.tx_sets

pub Turn-Told : (a b : Running) → Turn a b → Told a b
unfolding Change dpc_take set_rx_queue set_tx_queue arm_rx arm_tx interrupt_enable interrupt_disable
Turn-Told a b (isr_turn mac channel0 r) = isr-Change r.rx_sets r.tx_sets mac channel0 r.context
Turn-Told a b (take_turn r some_status) =
    (Accounted-same r.rx_sets refl refl, Accounted-same r.tx_sets refl refl)
Turn-Told a b (handle_turn before t after r e) = dpc_handle-Change r.rx_sets r.tx_sets t r.context
Turn-Told a b (rearm_turn n r e) =
    let (wanted, status, rx, tx, channel, told) = rearmed r.context in
    (Accounted-same r.rx_sets rx (ap rx_told told), Accounted-same r.tx_sets tx (ap tx_told told))
Turn-Told a b (set_rx_turn queue r free) =
    ((omega arith, omega arith, inr (inr (omega arith))), Accounted-same r.tx_sets refl refl)
Turn-Told a b (arm_rx_turn true r half) = want-Change r.rx_sets r.tx_sets _ r.context
Turn-Told a b (arm_rx_turn false r half) = want-Change r.rx_sets r.tx_sets _ r.context
Turn-Told a b (set_tx_turn queue r free) =
    (Accounted-same r.rx_sets refl refl, (omega arith, omega arith, inr (inr (omega arith))))
Turn-Told a b (arm_tx_turn true r half) = want-Change r.rx_sets r.tx_sets _ r.context
Turn-Told a b (arm_tx_turn false r half) = want-Change r.rx_sets r.tx_sets _ r.context

pub Turns-Told : (a b : Running) → Turns a b → Told a b
Turns-Told a b (no_turn r) =
    (Accounted-same r.rx_sets refl refl, Accounted-same r.tx_sets refl refl)
Turns-Told a b (then_turn {b = m} turns turn) =
    let (rx, tx) = Turns-Told a m turns in
    let (rx', tx') = Turn-Told m b turn in (Accounted-trans rx rx', Accounted-trans tx tx')
