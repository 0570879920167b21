-- ===== src/Sd/Tests.antt =====
-- The card clock on concrete frequencies, and the choice among concrete phases.
use woa_rk.Base.{
  field, ℕ, ◌+◌, ◌*◌, ◌/◌, ◌≤◌, ◌<◌, ◌≡◌, ◌⊎◌, refl, Bool, true, false, ◌&&◌, ltb, leb, some, none,
  arith,
}
use woa_rk.Sd.Tuning.{
  num_phases, tune, choose, scan, start_scan, try_phase, good_phase, skip, merge, longest,
  range_length,
}
use woa_rk.Sd.Sample.{tune_lem, ranges_fit}
use woa_rk.Sd.Rockchip.{
  Mshc, Status, parent_hz, divider, consider, best_of, best_rate, set_rate, set_clock,
}
use woa_rk.Sd.Rate.{set_clock_lem}

abbrev card : Mshc
card = record {
  rk_cru_mapped = true;
  rk_card_clock_hz = 0;
  base_clock_frequency_khz = 0;
  cru_clksel = 0;
  timing_con0 = 0;
  timing_con1 = 0;
}

-- 50 MHz comes from 1 GHz by 10; 400 kHz from the crystal by 30. Below 187.5 kHz the clock is
-- faster than asked.
set_rate_examples :
    ((set_rate 50000 card).rk_card_clock_hz ≡ 50000000)
    × ((set_rate 400 card).rk_card_clock_hz ≡ 400000)
    × ((set_rate 100 card).rk_card_clock_hz ≡ 187500)
unfolding set_rate best_rate best_of consider divider parent_hz
set_rate_examples = (refl, refl, refl)

fast_parent : parent_hz 0 ≤ 12 * (50000 * 2000)
unfolding parent_hz
fast_parent = omega arith

set_clock_lem_example :
    let (s, status) = set_clock false true 50000 card in
    (status ≡ Status.success)
    × (s.rk_card_clock_hz ≤ 50000 * 1000)
    × (parent_hz 0 / 12 / 2 ≤ s.rk_card_clock_hz)
    × (s.rk_card_clock_hz ≡ parent_hz (field s.cru_clksel 13 2) / (field s.cru_clksel 7 6 + 1) / 2)
    × (s.cru_clksel / 65536 ≡ 0x7F80)
    × (s.base_clock_frequency_khz ≡ 50000)
set_clock_lem_example =
    set_clock_lem false true 50000 0 12 card refl (omega arith) (omega arith) (omega arith)
      (omega arith) fast_parent

-- The phases from 100 to 199 are good.
abbrev some_phases : ℕ → Bool
some_phases i = leb 100 i && ltb i 200

tune-some_phases : tune some_phases ≡ some 150
unfolding tune choose scan try_phase good_phase skip merge longest range_length
tune-some_phases = refl

tune_lem_example :
    ((p : ℕ) × (tune some_phases ≡ some p) × (p < num_phases) × (some_phases p ≡ true))
    ⊎ ((tune some_phases ≡ none) × (some_phases 0 ≡ false))
tune_lem_example = tune_lem some_phases

ranges_fit_example : (scan some_phases 360 start_scan).range_count < num_phases / 2 + 1
ranges_fit_example = ranges_fit some_phases
