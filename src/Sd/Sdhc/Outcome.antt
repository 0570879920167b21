-- ===== src/Sd/Sdhc/Outcome.antt =====
-- How `SdhcSetClock` ends.
use woa_rk.Base.{
  ℕ, ◌*◌, ◌<◌, ◌≤◌, Bool, true, false, List, [], ◌∷◌, Option, some, ◌≡◌, refl, ap, ◌⊎◌, inl, inr,
  Bool-cases, arith, bit_or, flag, u32, ltb, ◌==◌, ==_iff, ltb→lt,
}
use woa_rk.Base.Flags.{mask, clear, flag-bit_or, flag-clear}
use woa_rk.Sd.Mshc.Types.{NtStatus}
use woa_rk.Sd.Sdhc.Types.{SdhcExtension, sdhc_clock_control}
use woa_rk.Sd.Sdhc.Fields.{cc_internal_clock_enable, cc_clock_stable, cc_clock_enable}
use woa_rk.Sd.Sdhc.Registers.{store, load, loaded, last_store, then_do}
use woa_rk.Sd.Sdhc.Reads.{answer, read_until-Found}
use woa_rk.Sd.Sdhc.Clock.{configure_phy, rk_set_clock, start_clock, set_clock}

-- The clock control register was last given `v`, and with it the gate of the card's clock.
abbrev pub Gate : (v : ℕ) (is_on : Bool) → SdhcExtension → Type 0
Gate v is_on h =
    (last_store sdhc_clock_control h.writes ≡ some v) × (flag v cc_clock_enable ≡ is_on)

module _ (device : List (ℕ × ℕ) → ℕ → ℕ → ℕ) where
  -- From the state `g` on the controller answers 99 times at most. Once the clock is stable the
  -- gate is let open and the call succeeds; else the gate stays shut and the call times out.
  abbrev pub Waited : (g : SdhcExtension) → SdhcExtension × NtStatus → Type 0
  Waited g r =
      ((i : ℕ) × (i < 99)
        × (flag (answer device sdhc_clock_control i g) cc_clock_stable ≡ true)
        × (r.1 ≡ NtStatus.success)
        × Gate (bit_or (answer device sdhc_clock_control i g) (mask (cc_clock_enable ∷ []))) true
            r.0)
      ⊎ (((i : ℕ) → i < 99 → flag (answer device sdhc_clock_control i g) cc_clock_stable ≡ false)
          × (r.1 ≡ NtStatus.io_timeout)
          × (last_store sdhc_clock_control r.0.writes ≡ last_store sdhc_clock_control g.writes))

  enabled : (v : ℕ) → flag (bit_or v (mask (cc_clock_enable ∷ []))) cc_clock_enable ≡ true
  enabled v = rw flag-bit_or (ground arith)

  start_clock-Waited :
      (control : ℕ) (h : SdhcExtension)
      → Waited
          (store sdhc_clock_control (bit_or control (mask (cc_internal_clock_enable ∷ []))) h)
          (start_clock device control h)
  unfolding start_clock store
  start_clock-Waited control h =
      let g = store sdhc_clock_control (bit_or control (mask (cc_internal_clock_enable ∷ []))) h in
      elim (read_until-Found device 99 sdhc_clock_control (λ v. flag v cc_clock_stable) g) [
        | inl (i, lt, stable, same) ↦ inl (
          i,
          lt,
          stable,
          rw (same, start_clock) refl,
          (rw (same, start_clock) refl, enabled (answer device sdhc_clock_control i g)),
        )
        | inr (same, unstable) ↦ inr (
          unstable,
          rw (same, start_clock) refl,
          rw (same, start_clock)
              (ap (λ (p : SdhcExtension × Option ℕ). last_store sdhc_clock_control p.0.writes)
                same),
        )
      ]

  -- What `SdhcSetClock` stores first, and the state in which it starts to wait.
  abbrev pub stopping : SdhcExtension → ℕ
  stopping h =
      clear (device h.writes h.reads sdhc_clock_control)
        (mask (cc_clock_enable ∷ cc_internal_clock_enable ∷ []))

  abbrev pub waiting : (khz : ℕ) → SdhcExtension → SdhcExtension
  waiting khz h =
      store sdhc_clock_control (bit_or (stopping h) (mask (cc_internal_clock_enable ∷ [])))
        (rk_set_clock khz (store sdhc_clock_control (stopping h) (loaded h))).0

  disabled : (h : SdhcExtension) → flag (stopping h) cc_clock_enable ≡ false
  disabled h = rw flag-clear (ground arith)

  still_disabled :
      (h : SdhcExtension)
      → flag (bit_or (stopping h) (mask (cc_internal_clock_enable ∷ []))) cc_clock_enable ≡ false
  still_disabled h = let e = disabled h in rw (flag-bit_or, e) (ground arith)

  -- The ways in which the call can end.
  abbrev pub Ends : (khz : ℕ) → (h : SdhcExtension) → SdhcExtension × NtStatus → Type 0
  Ends khz h r =
      ((u32 (khz * 1000) ≡ 0) × (r.1 ≡ NtStatus.invalid_parameter) × Gate (stopping h) false r.0)
      ⊎ (((100000000 ≤ u32 (khz * 1000))
            × (r.1 ≡ NtStatus.not_supported)
            × Gate (stopping h) false r.0)
          ⊎ ((0 < u32 (khz * 1000))
              × (u32 (khz * 1000) < 100000000)
              × Gate (bit_or (stopping h) (mask (cc_internal_clock_enable ∷ []))) false
                  (waiting khz h)
              × Waited (waiting khz h) r))

-- What the clock of the SoC does to the clock control register: nothing.
rk_set_clock_cases :
    (khz : ℕ) (h : SdhcExtension)
    → ((u32 (khz * 1000) ≡ 0) × (rk_set_clock khz h ≡ (h, NtStatus.invalid_parameter)))
      ⊎ (((100000000 ≤ u32 (khz * 1000))
            × ((rk_set_clock khz h).1 ≡ NtStatus.not_supported)
            × (last_store sdhc_clock_control (rk_set_clock khz h).0.writes
                ≡ last_store sdhc_clock_control h.writes))
          ⊎ ((0 < u32 (khz * 1000))
              × (u32 (khz * 1000) < 100000000)
              × ((rk_set_clock khz h).1 ≡ NtStatus.success)))
unfolding rk_set_clock configure_phy store
rk_set_clock_cases khz h = elim (Bool-cases (u32 (khz * 1000) == 0)) [
  | inl e ↦ inl ((==_iff (u32 (khz * 1000)) 0).0 e, rw (e, rk_set_clock) refl)
  | inr e ↦ elim (Bool-cases (ltb (u32 (khz * 1000)) 100000000)) [
    | inl f ↦ inr (inr (ground (arith, e), ltb→lt _ _ f, rw (e, f, rk_set_clock) refl))
    | inr f ↦ inr (
        inl (
          ground (arith, f),
          rw (e, f, rk_set_clock) refl,
          elim (Bool-cases (h.cru_mapped)) [
            | inl m ↦ rw (e, f, m, rk_set_clock) refl
            | inr m ↦ rw (e, f, m, rk_set_clock) refl
          ],
        ))
  ]
]

module _ (device : List (ℕ × ℕ) → ℕ → ℕ → ℕ) where
  -- `SdhcSetClock` ends in one of three ways. A frequency of 0 Hz (on 32 bits) is invalid, and one
  -- from 100 MHz on is not supported; the gate of the card's clock is then left shut. For any other
  -- frequency the gate is shut while the call waits for the controller, for at most 99 answers; the
  -- first that says that the clock is stable opens the gate and ends the call with success, and if
  -- there is none the call times out with the gate shut.
  pub set_clock-Ends : (khz : ℕ) (h : SdhcExtension) → Ends device khz h (set_clock device khz h)
  unfolding set_clock then_do store load
  set_clock-Ends khz h =
      let g = store sdhc_clock_control (stopping device h) (loaded h) in
      elim (rk_set_clock_cases khz g) [
        | inl (zero_hz, e) ↦
            inl (zero_hz, rw (e, set_clock) refl, (rw (e, set_clock) refl, disabled device h))
        | inr (inl (fast, e, same)) ↦
            inr (inl (fast, rw (e, set_clock) refl, (rw (e, set_clock) same, disabled device h)))
        | inr (inr (slow, fits, e)) ↦ inr (
            inr (
              slow,
              fits,
              (refl, still_disabled device h),
              rw (e, set_clock)
                  (start_clock-Waited device (stopping device h) (rk_set_clock khz g).0),
            ))
      ]
