-- ===== src/Sd/Tuning.antt =====
-- drivers/sd/dwcmshc/rockchip_ops.cpp: the choice of the sample phase, `MshcRockchipExecuteTuning`.
-- `ok i` is whether the phase `i` could be set and the tuning command then succeeded; no phase is
-- tried twice.
use woa_rk.Base.{
  ℕ, zero, suc, ◌+◌, ◌-◌, ◌/◌, ◌%◌, Bool, true, false, ◌&&◌, if◌then◌else◌, ◌==◌, ltb, leb, Option,
  none, some, update,
}

abbrev pub num_phases : ℕ
num_phases = 360

abbrev pub bad_phases_to_skip : ℕ
bad_phases_to_skip = 20

pub record Range : Type 0 where
  pub first : ℕ
  pub last : ℕ

-- `Index`, `PreviousTuneCmdOk`, which is `CurrentTuneCmdOk` after each round, `FirstTuneCmdOk`,
-- `RangeCount` and `Ranges`.
pub record Scan : Type 0 where
  pub index : ℕ
  pub previous_ok : Bool
  pub first_ok : Bool
  pub range_count : ℕ
  pub ranges : ℕ → Range

-- The next index after a bad phase.
unfoldable pub skip : ℕ → ℕ
skip index =
    if index == num_phases - 1
    then index + 1
    else if leb num_phases (index + bad_phases_to_skip)
    then num_phases - 1
    else index + bad_phases_to_skip

-- A good phase begins a range, or it ends the last one.
unfoldable pub good_phase : Scan → Scan
good_phase s =
    if s.previous_ok
    then record s {
      index = s.index + 1;
      ranges =
          update s.ranges (s.range_count - 1)
            (record (s.ranges (s.range_count - 1)) { last = s.index });
    }
    else record s {
      index = s.index + 1;
      previous_ok = true;
      range_count = s.range_count + 1;
      ranges = update s.ranges s.range_count (record { first = s.index; last = s.index });
    }

-- One round of the first loop.
unfoldable pub try_phase : (ok : ℕ → Bool) → Scan → Scan
unfolding good_phase skip
try_phase ok s =
    let a = if s.index == 0 then record s { first_ok = ok s.index } else s in
    if ok s.index then good_phase a else record a { index = skip s.index; previous_ok = false }

-- The first loop, `fuel` rounds at most.
unfoldable pub scan : (ok : ℕ → Bool) (fuel : ℕ) → Scan → Scan
scan ok zero s = s
scan ok (suc fuel) s =
    let next = scan ok fuel (try_phase ok s) in if ltb s.index num_phases then next else s

abbrev pub start_scan : Scan
start_scan = record {
  index = 0;
  previous_ok = false;
  first_ok = false;
  range_count = 0;
  ranges = λ i. record { first = 0; last = 0 };
}

-- The ranges at both ends are one.
unfoldable pub merge : Scan → Scan
merge s =
    if ltb 1 s.range_count && (s.first_ok && s.previous_ok)
    then record s {
      ranges =
          update s.ranges 0 (record (s.ranges 0) { first = (s.ranges (s.range_count - 1)).first });
      range_count = s.range_count - 1;
    }
    else s

-- `Length`, a signed number.
unfoldable pub range_length : Range → ℕ
range_length r =
    if ltb (r.last + 1) r.first then r.last + 1 + num_phases - r.first else r.last + 1 - r.first

-- `LongestRange` and `LongestRangeLength`, where `none` is -1.
unfoldable pub longest : (ranges : ℕ → Range) (count : ℕ) → Option (ℕ × ℕ)
longest ranges zero = none
longest ranges (suc n) =
    let l = range_length (ranges n) in
    elim (longest ranges n) [
      | none ↦ some (n, l)
      | some b ↦ if ltb b.1 l then some (n, l) else some b
    ]

-- The phase that is set in the end; `none` if all are bad.
unfoldable pub choose : Scan → Option ℕ
choose s =
    let m = merge s in
    if s.range_count == 0
    then none
    else if (m.ranges 0).first == 0 && (m.ranges 0).last == num_phases - 1
    then some 0
    else elim (longest m.ranges m.range_count) [
      | none ↦ none
      | some b ↦ some (((m.ranges b.0).first + b.1 / 2) % num_phases)
    ]

-- `MshcRockchipExecuteTuning`. Each round takes one phase or more.
unfoldable pub tune : (ok : ℕ → Bool) → Option ℕ
unfolding scan choose
tune ok = choose (scan ok 360 start_scan)
