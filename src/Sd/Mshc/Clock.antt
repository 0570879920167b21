-- ===== src/Sd/Mshc/Clock.antt =====
-- The card clock that `MshcSetClock` leaves.
use native.Mathlib.Nat.{lt-div-mul-add, div-lt_iff_lt-mul, div-le_of_le-mul}
use woa_rk.Base.{
  ℕ, ◌+◌, ◌-◌, ◌*◌, ◌/◌, ◌^◌, ◌≤◌, ◌<◌, Bool, true, false, flag, ◌==◌, ==_iff, ==_ne, ltb, ltb→lt,
  ltb→le, bit_or, u32, ◌≡◌, ◌≢◌, refl, sym, ap, ◌∙◌, ◌⊎◌, inl, inr, Bool-cases, arith,
  if◌then◌else◌,
}
use woa_rk.Base.Flags.{clear, flag_set, flag_cleared, flag-set_high, flag-clear_high}
use woa_rk.Sd.Mshc.Types.{Host, NtStatus, nt_success, mshc_clkena, mshc_clkdiv}
use woa_rk.Sd.Mshc.Registers.{write_register, ciu_update_clock}
use woa_rk.Sd.Mshc.Bus.{
  Platform, div_ceil, limited_frequency, divisor, stop_clock, platform_clock, start_clock,
  store_divisor, finish_clock, divide_clock, run_clock, set_stopped, set_clock,
}
use woa_rk.Sd.Mshc.Polls.{Same, ciu_update_clock-Same, and_then-cases}

-- The members that the clock update leaves alone.
record Steady (h g : Host) : Type 0 where
  slot : g.slot_id ≡ h.slot_id
  base : g.base_clock_khz ≡ h.base_clock_khz
  frequency : g.bus_frequency_khz ≡ h.bus_frequency_khz
  limit : (khz : ℕ) → limited_frequency khz g ≡ limited_frequency khz h

Same-Steady : (changes : ℕ → Bool) (h g : Host) → Same changes h g → Steady h g
unfolding limited_frequency
Same-Steady changes h g s = record {
  slot = ap (λ (x : Host). x.slot_id) s.keeps;
  base = ap (λ (x : Host). x.base_clock_khz) s.keeps;
  frequency = ap (λ (x : Host). x.bus_frequency_khz) s.keeps;
  limit = λ khz. ap (limited_frequency khz) s.keeps;
}

-- The frequency that is taken for the one asked, with a limit in Hz, where 0 is none.
abbrev pub Limits : (limit_hz khz taken : ℕ) → Type 0
Limits limit_hz khz taken =
    (taken ≤ khz)
    × ((limit_hz ≡ 0) ⊎ (taken * 1000 ≤ limit_hz))
    × ((taken ≡ khz) ⊎ ((limit_hz ≢ 0) × (taken ≡ limit_hz / 1000)))

limited_frequency-Limits :
    (khz : ℕ) (h : Host)
    → h.crashdump ≡ false
    → Limits h.max_frequency khz (limited_frequency khz h)
unfolding limited_frequency
limited_frequency-Limits khz h plain = elim (Bool-cases (h.max_frequency == 0)) [
  | inl e ↦
      let nothing : h.max_frequency ≡ 0 = (==_iff (h.max_frequency) 0).0 e in
      rw (plain, e) (omega arith, inl nothing, inl refl)
  | inr e ↦
      let some_limit : h.max_frequency ≢ 0 = ==_ne (h.max_frequency) 0 e in
      elim (Bool-cases (ltb (h.max_frequency / 1000) khz)) [
        | inl f ↦
            let less = ltb→lt _ _ f in
            rw (plain, e, f) (omega (arith, less), inr (omega arith), inr (some_limit, refl))
        | inr f ↦
            let most = ltb→le _ _ f in
            rw (plain, e, f) (omega arith, inr (omega (arith, most)), inl refl)
      ]
]

module _ (device : ℕ → ℕ → ℕ) (platform : Platform) where
  -- The platform's `SetClock` leaves alone the slot's number, the frequency that the driver noted
  -- and the register that enables the clock.
  abbrev pub QuietClock : Type 0
  QuietClock =
      (khz : ℕ) (h : Host)
      → ((platform_clock device platform khz h).0.slot_id ≡ h.slot_id)
        × ((platform_clock device platform khz h).0.regs mshc_clkena ≡ h.regs mshc_clkena)
        × ((platform_clock device platform khz h).0.bus_frequency_khz ≡ h.bus_frequency_khz)

  store_divisor_lem :
      (khz : ℕ) (h : Host)
      → Steady h (store_divisor device platform khz h).0
        × ((store_divisor device platform khz h).0.regs mshc_clkdiv ≡ divisor h.base_clock_khz khz)
        × ((store_divisor device platform khz h).0.regs mshc_clkena ≡ h.regs mshc_clkena)
  unfolding store_divisor write_register limited_frequency
  store_divisor_lem khz h =
      let s =
        ciu_update_clock-Same device 0
          (write_register mshc_clkdiv (divisor h.base_clock_khz khz) h) in
      let t = Same-Steady _ _ _ s in
      (
        record { slot = t.slot; base = t.base; frequency = t.frequency; limit = t.limit },
        s.others mshc_clkdiv refl,
        s.others mshc_clkena refl,
      )

  start_clock_lem :
      (clkena : ℕ) (h : Host)
      → h.slot_id < 16
      → Steady h (start_clock device platform clkena h).0
        × ((start_clock device platform clkena h).0.regs mshc_clkdiv ≡ h.regs mshc_clkdiv)
        × (flag ((start_clock device platform clkena h).0.regs mshc_clkena) h.slot_id ≡ true)
  unfolding start_clock write_register limited_frequency
  start_clock_lem clkena h small =
      let on = bit_or clkena (2 ^ h.slot_id) in
      let s =
        ciu_update_clock-Same device 0
          (write_register mshc_clkena (bit_or on (2 ^ (16 + h.slot_id))) h) in
      let t = Same-Steady _ _ _ s in
      (
        record { slot = t.slot; base = t.base; frequency = t.frequency; limit = t.limit },
        s.others mshc_clkdiv refl,
        ap (λ x. flag x h.slot_id) (s.others mshc_clkena refl)
            ∙ flag-set_high on h.slot_id small
            ∙ flag_set clkena h.slot_id (omega arith),
      )

  stop_clock_lem :
      (h : Host)
      → h.slot_id < 16
      → Steady h (stop_clock h)
        × ((stop_clock h).regs mshc_clkdiv ≡ 0)
        × (flag ((stop_clock h).regs mshc_clkena) h.slot_id ≡ false)
  unfolding stop_clock write_register limited_frequency
  stop_clock_lem h small = (
    record { slot = refl; base = refl; frequency = refl; limit = λ khz. refl },
    refl,
    flag-clear_high (clear (h.regs mshc_clkena) (2 ^ h.slot_id)) h.slot_id small
        ∙ flag_cleared (h.regs mshc_clkena) h.slot_id (omega arith),
  )

  -- The clock runs at the divisor for `khz`, or the steps failed and no frequency was noted.
  abbrev pub Ran : (khz : ℕ) (h : Host) → Host × NtStatus → Type 0
  Ran khz h r =
      ((nt_success r.1 ≡ true)
        × (flag (r.0.regs mshc_clkena) h.slot_id ≡ true)
        × (r.0.regs mshc_clkdiv ≡ divisor r.0.base_clock_khz khz)
        × (r.0.bus_frequency_khz ≡ khz))
      ⊎ ((nt_success r.1 ≡ false) × (r.0.bus_frequency_khz ≡ h.bus_frequency_khz))

  finish_clock-Ran :
      (clkena khz : ℕ) (h : Host)
      → h.slot_id < 16
      → h.regs mshc_clkdiv ≡ divisor h.base_clock_khz khz
      → Ran khz h (finish_clock device platform clkena khz h)
  unfolding finish_clock
  finish_clock-Ran clkena khz h small div =
      let (s, kept, on) = start_clock_lem clkena h small in
      elim (and_then-cases (start_clock device platform clkena h)
        (λ c. (record c { bus_frequency_khz = khz }, NtStatus.success))) [
          | inl (e, f) ↦
              rw f (inl (refl, on, kept ∙ div ∙ ap (λ b. divisor b khz) (sym s.base), refl))
          | inr (e, f) ↦ rw f (inr (e, s.frequency))
        ]

  -- A later start changes nothing of the slot and of the frequency.
  Ran-from :
      (khz : ℕ) (h g : Host) (r : Host × NtStatus)
      → g.slot_id ≡ h.slot_id
      → g.bus_frequency_khz ≡ h.bus_frequency_khz
      → Ran khz g r
      → Ran khz h r
  Ran-from khz h g r slot freq (inl (e, on, div, same)) =
      inl (e, ap (λ n. flag (r.0.regs mshc_clkena) n) (sym slot) ∙ on, div, same)
  Ran-from khz h g r slot freq (inr (e, same)) = inr (e, same ∙ freq)

  divide_clock-Ran :
      (clkena khz : ℕ) (h : Host)
      → h.slot_id < 16
      → Ran khz h (divide_clock device platform clkena khz h)
  unfolding divide_clock
  divide_clock-Ran clkena khz h small =
      let (s, div, kept) = store_divisor_lem khz h in
      elim (and_then-cases (store_divisor device platform khz h)
        (finish_clock device platform clkena khz)) [
          | inl (e, f) ↦ rw f (
              Ran-from khz h (store_divisor device platform khz h).0
                (finish_clock device platform clkena khz (store_divisor device platform khz h).0)
                s.slot s.frequency
                (finish_clock-Ran clkena khz (store_divisor device platform khz h).0
                  (omega (arith, s.slot, small)) (div ∙ ap (λ b. divisor b khz) (sym s.base))))
          | inr (e, f) ↦ rw f (inr (e, s.frequency))
        ]

  run_clock-Ran :
      (clkena khz : ℕ) (h : Host)
      → QuietClock
      → h.slot_id < 16
      → Ran khz h (run_clock device platform clkena khz h)
  unfolding run_clock
  run_clock-Ran clkena khz h quiet small =
      let (slot, enable, freq) = quiet khz h in
      elim (and_then-cases (platform_clock device platform khz h)
        (divide_clock device platform clkena khz)) [
          | inl (e, f) ↦ rw f (
              Ran-from khz h (platform_clock device platform khz h).0
                (divide_clock device platform clkena khz (platform_clock device platform khz h).0)
                slot freq
                (divide_clock-Ran clkena khz (platform_clock device platform khz h).0
                  (omega (arith, slot, small))))
          | inr (e, f) ↦ rw f (inr (e, freq))
        ]

  -- `MshcSetClock` for the frequency within the limit.
  set_clock_limited :
      (khz : ℕ) (h : Host)
      → QuietClock
      → h.slot_id < 16
      → 0 < khz
      → Ran (limited_frequency khz h) h (set_clock device platform khz h)
  unfolding set_clock set_stopped
  set_clock_limited khz h quiet small pos =
      let (a, div, off) = stop_clock_lem h small in
      let s = ciu_update_clock-Same device 0 (stop_clock h) in
      let b = Same-Steady _ _ _ s in
      let updated = (ciu_update_clock device 0 (stop_clock h)).0 in
      let some_khz : ltb 0 khz ≡ true = ground arith in
      elim (and_then-cases (ciu_update_clock device 0 (stop_clock h))
        (set_stopped device platform ((stop_clock h).regs mshc_clkena) khz)) [
          | inl (e, f) ↦
              rw (f, some_khz, b.limit khz, a.limit khz)
                (Ran-from (limited_frequency khz h) h updated
                  (run_clock device platform ((stop_clock h).regs mshc_clkena)
                    (limited_frequency khz h) updated)
                  (b.slot ∙ a.slot) (b.frequency ∙ a.frequency)
                  (run_clock-Ran ((stop_clock h).regs mshc_clkena) (limited_frequency khz h) updated
                    quiet (omega (arith, b.slot, a.slot, small))))
          | inr (e, f) ↦ rw f (inr (e, b.frequency ∙ a.frequency))
        ]

  -- If the platform's `SetClock` leaves alone the slot's number, which is below 16, the noted
  -- frequency and the enable register, then outside of a crash dump `MshcSetClock` for a frequency
  -- above 0 takes the frequency asked, or the platform's limit, if it has one and that is lower. It
  -- either succeeds and leaves the clock enabled, the divider at the divisor for this frequency, and
  -- this frequency noted; or it fails and leaves the noted frequency.
  pub set_clock-Ran :
      (khz : ℕ) (h : Host)
      → QuietClock
      → h.slot_id < 16
      → h.crashdump ≡ false
      → 0 < khz
      → (taken : ℕ) × Limits h.max_frequency khz taken
        × Ran taken h (set_clock device platform khz h)
  set_clock-Ran khz h quiet small plain pos = (
    limited_frequency khz h,
    limited_frequency-Limits khz h plain,
    set_clock_limited khz h quiet small pos,
  )

-- The clock of the card that the divider makes, where 0 passes the base clock on.
abbrev pub card_khz : (base div : ℕ) → ℕ
card_khz base div = if div == 0 then base else base / (2 * div)

card_khz-le : (base c khz : ℕ) → base ≤ c * (khz * 2) → card_khz base c ≤ khz
card_khz-le base c khz h = elim (Bool-cases (c == 0)) [
  | inl e ↦
      let none_left : c ≡ 0 = (==_iff c 0).0 e in
      let nothing : base ≤ 0 * (khz * 2) = rw none_left at h in rw e (omega (arith, nothing))
  | inr e ↦ let twice : base ≤ 2 * c * khz = grind arith in rw e (div-le_of_le-mul (2 * c) twice)
]

-- The divisor rounds up, and its words do not wrap.
divisor-ceil :
    (base khz : ℕ)
    → 0 < khz
    → base + khz * 2 < 4294967296
    → khz ≢ base
    → divisor base khz ≡ (base + khz * 2 - 1) / (khz * 2)
unfolding divisor div_ceil
divisor-ceil base khz pos small other =
    let double : u32 (khz * 2) ≡ khz * 2 = omega arith in
    let sum : u32 (base + khz * 2 + 4294967295) ≡ base + khz * 2 - 1 = omega arith in
    let differs : (khz == base) ≡ false = ground (arith, other) in rw (differs, double, sum) refl

-- For a frequency above 0, with the base clock and twice the frequency within 32 bits together, the
-- divisor of `MshcSetClock` makes a clock that is not above the frequency, and it is not above any
-- divider that makes such a clock exactly, without rounding down.
pub divisor_lem :
    (base khz d : ℕ)
    → 0 < khz
    → base + khz * 2 < 4294967296
    → base ≤ d * (khz * 2)
    → (card_khz base (divisor base khz) ≤ khz) × (divisor base khz ≤ d)
unfolding divisor
divisor_lem base khz d pos small reach = elim (Bool-cases (khz == base)) [
  | inl e ↦
      let same : khz ≡ base = (==_iff khz base).0 e in
      (rw (e, divisor) (omega (arith, same)), rw (e, divisor) (omega arith))
  | inr e ↦
      let ceil = divisor-ceil base khz pos small (==_ne khz base e) in
      let c = (base + khz * 2 - 1) / (khz * 2) in
      let twice : 0 < khz * 2 = omega arith in
      let below : base + khz * 2 - 1 < c * (khz * 2) + khz * 2 = lt-div-mul-add twice in
      let enough : base ≤ c * (khz * 2) = omega (arith, below, pos) in
      let within : base + khz * 2 - 1 < (d + 1) * (khz * 2) = grind arith in
      let less : c < d + 1 = (div-lt_iff_lt-mul {x = base + khz * 2 - 1} twice).1 within in
      (simp ceil (card_khz-le base c khz enough), rw ceil (omega (arith, less)))
]
