-- ===== src/Sd/Sdhc/Gated.antt =====
-- The source of the card's clock changes only while the clock is gated: what each function of the
-- bus operations does to this.
use woa_rk.Base.{
  ℕ, zero, suc, ◌*◌, Bool, true, false, not, ◌||◌, List, [], ◌∷◌, Option, none, some, ◌≡◌, refl,
  sym, ap, subst, inl, inr, Bool-cases, arith, bit_or, flag, u32, ltb, ◌==◌, if◌then◌else◌,
}
use woa_rk.Base.Flags.{mask, clear, flag-clear}
use woa_rk.Sd.Mshc.Types.{nt_success}
use woa_rk.Sd.Sdhc.Types.{
  SdhcExtension, ResetType, sdhc_clock_control, sdhc_reset, dwcmshc_emmc_dll_ctrl,
  dwcmshc_emmc_dll_rxclk, dwcmshc_emmc_dll_txclk, dwcmshc_emmc_dll_strbin, dwcmshc_emmc_dll_cmdout,
  dwcmshc_emmc_misc_con, rk3576_cru_clksel_con89,
}
use woa_rk.Sd.Sdhc.Fields.{cc_internal_clock_enable, cc_clock_stable, cc_clock_enable}
use woa_rk.Sd.Sdhc.Registers.{store, load, loaded, last_store, then_do, read_until, store_until}
use woa_rk.Sd.Sdhc.Reads.{read_until-Found}
use woa_rk.Sd.Sdhc.Bus.{modify, restore_host, reset_host, reset_bit}
use woa_rk.Sd.Sdhc.Clock.{configure_phy, cru_word, rk_set_clock, start_clock, set_clock}

-- The registers that choose the source of the clock and its delays.
abbrev pub is_source : ℕ → Bool
is_source a =
    a == rk3576_cru_clksel_con89
    || (a == dwcmshc_emmc_dll_ctrl
        || (a == dwcmshc_emmc_dll_rxclk
            || (a == dwcmshc_emmc_dll_txclk
                || (a == dwcmshc_emmc_dll_strbin || a == dwcmshc_emmc_dll_cmdout))))

-- The last store to the clock control register left the gate shut.
pub record Shut (ws : List (ℕ × ℕ)) : Type 0 where
  pub control : ℕ
  pub stored : last_store sdhc_clock_control ws ≡ some control
  pub gate : flag control cc_clock_enable ≡ false

-- Whenever one of those registers was stored, the gate was shut.
pub data Gated : List (ℕ × ℕ) → Type 0 where
  nothing_stored : Gated []
  other_stored :
      {a v : ℕ} {ws : List (ℕ × ℕ)} → is_source a ≡ false → Gated ws → Gated ((a, v) ∷ ws)
  source_stored : {a v : ℕ} {ws : List (ℕ × ℕ)} → Shut ws → Gated ws → Gated ((a, v) ∷ ws)

-- A step from `h` to `g` keeps this.
abbrev pub Keeps : (h g : SdhcExtension) → Type 0
Keeps h g = Gated h.writes → Gated g.writes

pub store-Keeps : (a v : ℕ) (h : SdhcExtension) → is_source a ≡ false → Keeps h (store a v h)
unfolding store
store-Keeps a v h e all = other_stored e all

-- The gate is shut, and it was whenever one of those registers was stored.
record Held (ws : List (ℕ × ℕ)) : Type 0 where
  shut : Shut ws
  all : Gated ws

store-Held :
    {a v : ℕ} {ws : List (ℕ × ℕ)} → (a == sdhc_clock_control) ≡ false → Held ws → Held ((a, v) ∷ ws)
store-Held e s = record {
  shut = record { control = s.shut.control; stored = rw e (s.shut.stored); gate = s.shut.gate };
  all = source_stored (s.shut) (s.all);
}

configure_phy-Held :
    (hz : ℕ) (h : SdhcExtension) → Held h.writes → Held (configure_phy hz h).0.writes
unfolding configure_phy store
configure_phy-Held hz h s = elim (Bool-cases (ltb hz 100000000)) [
  | inl e ↦
      rw (e, configure_phy)
        (store-Held refl (store-Held refl (store-Held refl (store-Held refl (store-Held refl s)))))
  | inr e ↦ rw (e, configure_phy) s
]

mapped-Held :
    (mapped : Bool) (hz v : ℕ) (h : SdhcExtension)
    → Held h.writes
    → Held (configure_phy hz (if mapped then store rk3576_cru_clksel_con89 v h else h)).0.writes
unfolding store
mapped-Held true hz v h s =
    configure_phy-Held hz (store rk3576_cru_clksel_con89 v h) (store-Held refl s)
mapped-Held false hz v h s = configure_phy-Held hz h s

rk_set_clock-Held :
    (khz : ℕ) (h : SdhcExtension) → Held h.writes → Held (rk_set_clock khz h).0.writes
unfolding rk_set_clock
rk_set_clock-Held khz h s = elim (Bool-cases (u32 (khz * 1000) == 0)) [
  | inl e ↦ rw (e, rk_set_clock) s
  | inr e ↦
      rw (e, rk_set_clock)
        (mapped-Held (h.cru_mapped) (u32 (khz * 1000)) (cru_word (u32 (khz * 1000))) h s)
]

-- The loops.
module _ (device : List (ℕ × ℕ) → ℕ → ℕ → ℕ) where
  pub modify-Keeps :
      (a : ℕ) (change : ℕ → ℕ) (h : SdhcExtension)
      → is_source a ≡ false
      → Keeps h (modify device a change h)
  unfolding modify loaded
  modify-Keeps a change h e = store-Keeps a (change (load device a h)) (loaded h) e

  pub read_until-writes :
      (tries a : ℕ) (test : ℕ → Bool) (h : SdhcExtension)
      → (read_until device tries a test h).0.writes ≡ h.writes
  read_until-writes tries a test h = elim (read_until-Found device tries a test h) [
    | inl (i, lt, passed, same) ↦ ap (λ (r : SdhcExtension × Option ℕ). r.0.writes) same
    | inr (same, failed) ↦ ap (λ (r : SdhcExtension × Option ℕ). r.0.writes) same
  ]

  read_until-Keeps :
      (tries a : ℕ) (test : ℕ → Bool) (h : SdhcExtension)
      → Keeps h (read_until device tries a test h).0
  read_until-Keeps tries a test h = subst Gated (sym (read_until-writes tries a test h))

  pub store_until-Keeps :
      (tries a v : ℕ) (test : ℕ → Bool) (h : SdhcExtension)
      → is_source a ≡ false
      → Keeps h (store_until device tries a v test h).0
  unfolding store_until loaded
  store_until-Keeps zero a v test h e all = all
  store_until-Keeps (suc tries) a v test h e all =
      let next = store-Keeps a v h e all in
      elim (Bool-cases (test (load device a (store a v h)))) [
        | inl f ↦ rw (f, store_until) next
        | inr f ↦
            rw (f, store_until) (store_until-Keeps tries a v test (loaded (store a v h)) e next)
      ]

  start_clock-Keeps : (control : ℕ) (h : SdhcExtension) → Keeps h (start_clock device control h).0
  unfolding start_clock store
  start_clock-Keeps control h all =
      let g = store sdhc_clock_control (bit_or control (mask (cc_internal_clock_enable ∷ []))) h in
      let test : ℕ → Bool = λ v. flag v cc_clock_stable in
      let asked : Gated g.writes = other_stored refl all in
      let polled = read_until-Keeps 99 sdhc_clock_control test g asked in
      elim (read_until-Found device 99 sdhc_clock_control test g) [
        | inl (i, lt, stable, same) ↦ rw (same, start_clock) (other_stored refl polled)
        | inr (same, unstable) ↦ rw (same, start_clock) polled
      ]

  pub set_clock-Keeps : (khz : ℕ) (h : SdhcExtension) → Keeps h (set_clock device khz h).0
  unfolding set_clock then_do store load loaded
  set_clock-Keeps khz h all =
      let control =
        clear (device h.writes h.reads sdhc_clock_control)
          (mask (cc_clock_enable ∷ cc_internal_clock_enable ∷ [])) in
      let g = store sdhc_clock_control control (loaded h) in
      let off : flag control cc_clock_enable ≡ false = rw flag-clear (ground arith) in
      let s = rk_set_clock-Held khz g (record {
        shut = record { control = control; stored = refl; gate = off };
        all = other_stored refl all;
      }) in
      elim (Bool-cases (nt_success (rk_set_clock khz g).1)) [
        | inl e ↦ rw (e, set_clock) (start_clock-Keeps control (rk_set_clock khz g).0 s.all)
        | inr e ↦ rw (e, set_clock) s.all
      ]

  restore_host-Keeps :
      (misc_con : ℕ) (is_all : Bool) (h : SdhcExtension)
      → Keeps h (restore_host device misc_con is_all h)
  unfolding restore_host modify store loaded
  restore_host-Keeps misc_con true h all =
      other_stored refl
        (other_stored refl (other_stored refl (other_stored refl (other_stored refl all))))
  restore_host-Keeps misc_con false h all =
      other_stored refl (other_stored refl (other_stored refl (other_stored refl all)))

  -- A reset that the controller is asked for by the bit.
  reset_bit-Keeps :
      (type : ResetType) (h : SdhcExtension) (asked : Option ℕ)
      → reset_bit type ≡ asked
      → Keeps h (reset_host device type h).0
  unfolding reset_host loaded store load
  reset_bit-Keeps type h none e all = rw (e, reset_host) all
  reset_bit-Keeps type h (some bit) e all =
      let g = record h { outstanding = none } in
      let out = store sdhc_reset (mask (bit ∷ [])) (loaded g) in
      let test : ℕ → Bool = λ v. not (flag v bit) in
      let asked : Gated out.writes = other_stored refl all in
      let polled = read_until-Keeps 99 sdhc_reset test out asked in
      elim (read_until-Found device 99 sdhc_reset test out) [
        | inl (i, lt, done, same) ↦
            rw (e, same, reset_host)
              (restore_host-Keeps (load device dwcmshc_emmc_misc_con g) (bit == 0)
                (read_until device 99 sdhc_reset test out).0 polled)
        | inr (same, busy) ↦ rw (e, same, reset_host) polled
      ]

  pub reset_host-Keeps :
      (type : ResetType) (h : SdhcExtension) → Keeps h (reset_host device type h).0
  reset_host-Keeps type h = reset_bit-Keeps type h (reset_bit type) refl
