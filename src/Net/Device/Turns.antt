-- ===== src/Net/Device/Turns.antt =====
-- What a turn of the deferred part does.
use woa_rk.Base.{
  ℕ, not, ◌||◌, ◌&&◌, ◌≡◌, refl, ap, ◌∙◌, ◌⊎◌, inl, inr, Bool-cases, if◌then◌else◌, flag, ◌==◌,
  ==_iff, arith,
}
use woa_rk.Net.Device.Types.{
  DeviceContext, channel_tx, channel_rx, interrupt_link_status, channel_abnormal_summary,
  channel_fatal_bus_error,
}
use woa_rk.Net.Device.Interrupts.{
  make_channel_interrupt_enable, interrupt_set, dpc_link, dpc_notify_rx, dpc_notify_tx, dpc_errors,
  dpc_rearm, dpc_handle,
}

-- The members that a step of the deferred part leaves alone.
record Kept (c g : DeviceContext) : Type 0 where
  wanted : g.interrupts_wanted ≡ c.interrupts_wanted
  status : g.interrupt_status ≡ c.interrupt_status
  channel : g.channel_enable ≡ c.channel_enable

Kept-trans : (a b c : DeviceContext) → Kept a b → Kept b c → Kept a c
Kept-trans a b c p q = record {
  wanted = q.wanted ∙ p.wanted;
  status = q.status ∙ p.status;
  channel = q.channel ∙ p.channel;
}

-- A step that changes neither queue.
Quiet : (c g : DeviceContext) → Type 0
Quiet c g = Kept c g × (g.rx_queue ≡ c.rx_queue) × (g.tx_queue ≡ c.tx_queue)

all_refl : (c : DeviceContext) → Kept c c
all_refl c = record { wanted = refl; status = refl; channel = refl }

dpc_link-Quiet : (t : ℕ) (c : DeviceContext) → Quiet c (dpc_link t c)
unfolding dpc_link Quiet
dpc_link-Quiet t c = elim (Bool-cases (flag t interrupt_link_status)) [
  | inl e ↦ rw (e, dpc_link) (record { wanted = refl; status = refl; channel = refl }, refl, refl)
  | inr e ↦ rw (e, dpc_link) (all_refl c, refl, refl)
]

dpc_errors-Quiet : (t : ℕ) (c : DeviceContext) → Quiet c (dpc_errors t c)
unfolding dpc_errors Quiet
dpc_errors-Quiet t c =
    elim (Bool-cases (flag t channel_abnormal_summary || flag t channel_fatal_bus_error)) [
      | inl e ↦
          rw (e, dpc_errors) (record { wanted = refl; status = refl; channel = refl }, refl, refl)
      | inr e ↦ rw (e, dpc_errors) (all_refl c, refl, refl)
    ]

dpc_notify_rx-Kept :
    (t : ℕ) (c : DeviceContext)
    → Kept c (dpc_notify_rx t c)
      × ((dpc_notify_rx t c).rx_queue ≡ (c.rx_queue && not (flag t channel_rx)))
      × ((dpc_notify_rx t c).tx_queue ≡ c.tx_queue)
unfolding dpc_notify_rx
dpc_notify_rx-Kept t c = elim (Bool-cases (c.rx_queue && flag t channel_rx)) [
  | inl e ↦
      rw (e, dpc_notify_rx)
        (record { wanted = refl; status = refl; channel = refl }, ground (arith, e), refl)
  | inr e ↦ rw (e, dpc_notify_rx) (all_refl c, ground (arith, e), refl)
]

dpc_notify_tx-Kept :
    (t : ℕ) (c : DeviceContext)
    → Kept c (dpc_notify_tx t c)
      × ((dpc_notify_tx t c).tx_queue ≡ (c.tx_queue && not (flag t channel_tx)))
      × ((dpc_notify_tx t c).rx_queue ≡ c.rx_queue)
unfolding dpc_notify_tx
dpc_notify_tx-Kept t c = elim (Bool-cases (c.tx_queue && flag t channel_tx)) [
  | inl e ↦
      rw (e, dpc_notify_tx)
        (record { wanted = refl; status = refl; channel = refl }, ground (arith, e), refl)
  | inr e ↦ rw (e, dpc_notify_tx) (all_refl c, ground (arith, e), refl)
]

-- What the first part of a turn does for a status.
pub record Turned (t : ℕ) (c g : DeviceContext) : Type 0 where
  pub wanted : g.interrupts_wanted ≡ c.interrupts_wanted
  pub status : g.interrupt_status ≡ c.interrupt_status
  pub channel : g.channel_enable ≡ c.channel_enable
  pub rx : g.rx_queue ≡ (c.rx_queue && not (flag t channel_rx))
  pub tx : g.tx_queue ≡ (c.tx_queue && not (flag t channel_tx))

told : (t : ℕ) → DeviceContext → DeviceContext
told t c = if flag t channel_rx || flag t channel_tx then dpc_notify_tx t (dpc_notify_rx t c) else c

told-Kept :
    (t : ℕ) (c : DeviceContext)
    → Kept c (told t c)
      × ((told t c).rx_queue ≡ (c.rx_queue && not (flag t channel_rx)))
      × ((told t c).tx_queue ≡ (c.tx_queue && not (flag t channel_tx)))
unfolding told
told-Kept t c = elim (Bool-cases (flag t channel_rx || flag t channel_tx)) [
  | inl e ↦
      let g = dpc_notify_rx t c in
      let (first, rx, same_tx) = dpc_notify_rx-Kept t c in
      let (second, tx, same_rx) = dpc_notify_tx-Kept t g in
      rw (e, told)
        (
          Kept-trans c g (dpc_notify_tx t g) first second,
          same_rx ∙ rx,
          tx ∙ ap (λ x. x && not (flag t channel_tx)) same_tx,
        )
  | inr e ↦ rw (e, told) (all_refl c, ground (arith, e), ground (arith, e))
]

pub rearmed :
    (c : DeviceContext)
    → ((dpc_rearm c).interrupts_wanted ≡ c.interrupts_wanted)
      × ((dpc_rearm c).interrupt_status ≡ c.interrupt_status)
      × ((dpc_rearm c).rx_queue ≡ c.rx_queue)
      × ((dpc_rearm c).tx_queue ≡ c.tx_queue)
      × (((dpc_rearm c).channel_enable ≡ make_channel_interrupt_enable c.interrupts_wanted)
          ⊎ ((c.interrupts_wanted ≡ 0) × ((dpc_rearm c).channel_enable ≡ c.channel_enable)))
      × ((dpc_rearm c).told ≡ c.told)
unfolding dpc_rearm interrupt_set
rearmed c = elim (Bool-cases (c.interrupts_wanted == 0)) [
  | inl e ↦
      let off : c.interrupts_wanted ≡ 0 = (==_iff (c.interrupts_wanted) 0).0 e in
      rw (e, dpc_rearm) (refl, refl, refl, refl, inr (off, refl), refl)
  | inr e ↦ rw (e, dpc_rearm) (refl, refl, refl, refl, inl refl, refl)
]

pub dpc_handle-Turned : (t : ℕ) (c : DeviceContext) → Turned t c (dpc_handle t c)
unfolding dpc_handle Quiet told
dpc_handle-Turned t c =
    let l = dpc_link t c in
    let m = told t l in
    let e = dpc_errors t m in
    let (k, l_rx, l_tx) = dpc_link-Quiet t c in
    let (k₁, m_rx, m_tx) = told-Kept t l in
    let (k₂, e_rx, e_tx) = dpc_errors-Quiet t m in
    let all = Kept-trans c l e k (Kept-trans l m e k₁ k₂) in
    record {
      wanted = all.wanted;
      status = all.status;
      channel = all.channel;
      rx = e_rx ∙ m_rx ∙ ap (λ x. x && not (flag t channel_rx)) l_rx;
      tx = e_tx ∙ m_tx ∙ ap (λ x. x && not (flag t channel_tx)) l_tx;
    }
