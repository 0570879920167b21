-- ===== src/Sd/Rate.antt =====
-- The rate that `MshcRockchipSetClock` chooses.
use native.Mathlib.Nat.{
  mul-le-mul_left, lt_of_mul-lt-mul_right, div-le_of_le-mul, div-mul-le_self, lt-div-mul-add,
  div-lt_iff_lt-mul,
}
use woa_rk.Base.{
  ℕ, ◌+◌, ◌-◌, ◌*◌, ◌/◌, ◌≤◌, ◌<◌, ◌≡◌, refl, inl, inr, Bool, true, false, not, ◌&&◌, Bool-cases,
  if◌then◌else◌, ltb, leb, ltb→lt, ltb→le, leb→le, le→leb, ◌==◌, ◌⊎◌, u32, ap, sym, field, bit_or,
  ◌^◌, ◌∙◌, arith,
}
use woa_rk.Base.Flags.{all_below, all_below-holds}
use woa_rk.Sd.Rockchip.{
  Mshc, Status, Best, parent_hz, divider, consider, best_of, best_rate, set_rate, set_phase,
  set_phases, map_cru, set_clock,
}

parent_hz-le : (mux : ℕ) → (24000000 ≤ parent_hz mux) × (parent_hz mux ≤ 1188000000)
unfolding parent_hz
parent_hz-le mux = ground arith

-- A larger divider makes no higher rate.
pub div-antitone : (p a b : ℕ) → 0 < a → a ≤ b → p / b ≤ p / a
div-antitone p a b pos h =
    let below : p < p / a * a + a = lt-div-mul-add pos in
    let more : (p / a + 1) * a ≤ (p / a + 1) * b = mul-le-mul_left (p / a + 1) h in
    let within : p < (p / a + 1) * b = grind arith in
    let less : p / b < p / a + 1 = (div-lt_iff_lt-mul {x = p} (omega (arith, pos, h))).1 within in
    omega (arith, less)

-- The limits change nothing of a divider within them.
clamp_lem :
    (c : ℕ)
    → 0 < c
    → c ≤ 64
    → (let low = if ltb c 1 then 1 else c in if ltb 64 low then 64 else low) ≡ c
clamp_lem c pos h = ground arith

-- The divider is the least that does not exceed the target, if it is within the limits.
divider_lem :
    (target p d : ℕ)
    → 0 < target
    → target ≤ 3000000000
    → 0 < p
    → p ≤ 1188000000
    → d ≤ 64
    → p ≤ d * target
    → (0 < divider target p) × (divider target p ≤ d) × (p ≤ divider target p * target)
unfolding divider
divider_lem target p d pos top some most limit reach =
    let c = (p + target - 1) / target in
    let below : p + target - 1 < c * target + target = lt-div-mul-add pos in
    let above : c * target ≤ p + target - 1 = div-mul-le_self (p + target - 1) target in
    let word : u32 (p + target + 4294967295) ≡ p + target - 1 =
      omega (arith, pos, top, some, most) in
    let more : c * target < (d + 1) * target = grind arith in
    let fits : c < d + 1 = lt_of_mul-lt-mul_right target more in
    let least : 0 * target < c * target = grind arith in
    let any : 0 < c = lt_of_mul-lt-mul_right target least in
    let same : divider target p ≡ c = rw word (clamp_lem c any (omega (arith, fits, limit))) in
    rw same (any, omega (arith, fits), omega (arith, below, pos))

consider_slow : (target mux : ℕ) (b : Best) → b.hz ≤ target → (consider target mux b).hz ≤ target
unfolding consider
consider_slow target mux b h =
    elim (Bool-cases (leb (parent_hz mux / divider target (parent_hz mux)) target)) [
      | inl e ↦ elim (Bool-cases (ltb b.hz (parent_hz mux / divider target (parent_hz mux)))) [
        | inl f ↦ rw (e, f) (leb→le _ _ e)
        | inr f ↦ rw (e, f) h
      ]
      | inr e ↦ rw e h
    ]

consider_grows : (target mux : ℕ) (b : Best) → b.hz ≤ (consider target mux b).hz
unfolding consider
consider_grows target mux b =
    elim (Bool-cases (leb (parent_hz mux / divider target (parent_hz mux)) target)) [
      | inl e ↦ elim (Bool-cases (ltb b.hz (parent_hz mux / divider target (parent_hz mux)))) [
        | inl f ↦ rw (e, f) (omega (arith, ltb→lt _ _ f))
        | inr f ↦ rw (e, f) (omega arith)
      ]
      | inr e ↦ rw e (omega arith)
    ]

consider_best :
    (target mux d : ℕ) (b : Best)
    → 0 < target
    → target ≤ 3000000000
    → d ≤ 64
    → parent_hz mux ≤ d * target
    → parent_hz mux / d ≤ (consider target mux b).hz
unfolding consider
consider_best target mux d b pos top limit reach =
    let p = parent_hz mux in
    let range = parent_hz-le mux in
    let (any, least, below) =
      divider_lem target p d pos top (omega (arith, range)) range.1 limit reach in
    let slow : p / divider target p ≤ target = div-le_of_le-mul (divider target p) below in
    let fast : p / d ≤ p / divider target p = div-antitone p (divider target p) d any least in
    elim (Bool-cases (ltb b.hz (p / divider target p))) [
      | inl f ↦ rw (le→leb _ _ slow, f) fast
      | inr f ↦ rw (le→leb _ _ slow, f) (omega (arith, fast, ltb→le _ _ f))
    ]

best_of_lem :
    (target mux d : ℕ) (b : Best)
    → 0 < target
    → target ≤ 3000000000
    → b.hz ≤ target
    → mux < 3
    → d ≤ 64
    → parent_hz mux ≤ d * target
    → ((best_of target 3 0 b).hz ≤ target) × (parent_hz mux / d ≤ (best_of target 3 0 b).hz)
unfolding best_of
best_of_lem target mux d b pos top slow inside limit reach =
    let b1 = consider target 0 b in
    let b2 = consider target 1 b1 in
    let b3 = consider target 2 b2 in
    let grows = consider_grows target 1 b1 in
    let more = consider_grows target 2 b2 in
    (
      consider_slow target 2 b2 (consider_slow target 1 b1 (consider_slow target 0 b slow)),
      elim (three mux inside) [
        | inl e ↦
            let reach' : parent_hz 0 ≤ d * target = rw e at reach in
            rw e (omega (arith, consider_best target 0 d b pos top limit reach', grows, more))
        | inr (inl e) ↦
            let reach' : parent_hz 1 ≤ d * target = rw e at reach in
            rw e (omega (arith, consider_best target 1 d b1 pos top limit reach', more))
        | inr (inr e) ↦
            let reach' : parent_hz 2 ≤ d * target = rw e at reach in
            rw e (consider_best target 2 d b2 pos top limit reach')
      ],
    )
  where
    three : (n : ℕ) → n < 3 → (n ≡ 0) ⊎ (n ≡ 1) ⊎ (n ≡ 2)
    three n h = omega arith

crystal_reach : (t : ℕ) → 375000 ≤ t → parent_hz 2 ≤ 64 * t
unfolding parent_hz
crystal_reach t h = omega arith

crystal_hz : parent_hz 2 / 64 ≡ 375000
unfolding parent_hz
crystal_hz = refl

best_rate_lem :
    (target mux d : ℕ)
    → 375000 ≤ target
    → target ≤ 3000000000
    → mux < 3
    → d ≤ 64
    → parent_hz mux ≤ d * target
    → ((best_rate target).hz ≤ target) × (parent_hz mux / d ≤ (best_rate target).hz)
unfolding best_rate
best_rate_lem target mux d low top inside limit reach =
    let start : Best = record { hz = 0; mux = 2; div = 64 } in
    let crystal : parent_hz 2 / 64 ≤ (best_of target 3 0 start).hz =
      (best_of_lem target 2 64 start (omega arith) top (omega arith) (omega arith) (omega arith)
        (crystal_reach target low)).1 in
    let slowest = crystal_hz in
    let found : ((best_of target 3 0 start).hz == 0) ≡ false = ground (arith, crystal, slowest) in
    rw found (best_of_lem target mux d start (omega arith) top (omega arith) inside limit reach)

-- The rate that was found is made by one of the three parents and a divider from 1 to 64.
Made : Best → Type 0
Made b = (b.mux < 3) × (0 < b.div) × (b.div ≤ 64) × ((b.hz ≡ 0) ⊎ (b.hz ≡ parent_hz b.mux / b.div))

divider_limits : (target p : ℕ) → (0 < divider target p) × (divider target p ≤ 64)
unfolding divider
divider_limits target p = limits (u32 (p + target + 4294967295) / target)
  where
    limits :
        (c : ℕ)
        → let low = if ltb c 1 then 1 else c in
          (0 < (if ltb 64 low then 64 else low)) × ((if ltb 64 low then 64 else low) ≤ 64)
    limits c = ground arith

consider-Made : (target mux : ℕ) (b : Best) → mux < 3 → Made b → Made (consider target mux b)
unfolding consider Made
consider-Made target mux b inside made =
    let hz = parent_hz mux / divider target (parent_hz mux) in
    let (any, most) = divider_limits target (parent_hz mux) in
    elim (Bool-cases (leb hz target && ltb b.hz hz)) [
      | inl e ↦ rw e (inside, any, most, inr refl)
      | inr e ↦ rw e made
    ]

best_rate-Made :
    (target : ℕ)
    → let b = best_rate target in
      (b.mux < 3) × (0 < b.div) × (b.div ≤ 64) × (b.hz ≡ parent_hz b.mux / b.div)
unfolding best_rate best_of Made
best_rate-Made target =
    let start : Best = record { hz = 0; mux = 2; div = 64 } in
    let b0 = consider target 0 start in
    let b1 = consider target 1 b0 in
    let b2 = consider target 2 b1 in
    let first : Made start = (omega arith, omega arith, omega arith, inl refl) in
    let (inside, any, most, made) = consider-Made target 2 b1 (omega arith) (
      consider-Made target 1 b0 (omega arith) (consider-Made target 0 start (omega arith) first)) in
    elim (Bool-cases (b2.hz == 0)) [
      | inl e ↦ rw e (inside, any, most, refl)
      | inr e ↦
          rw e (inside, any, most, elim made [ inl f ↦ absurd (ground (arith, e, f)) | inr f ↦ f ])
    ]

-- The word of the register: its write mask, the parent and the divider less one.
clksel_word : (mux less : ℕ) → ℕ
clksel_word mux less = bit_or (bit_or (0x7F80 * 2 ^ 16) (mux * 2 ^ 13)) (less * 2 ^ 7)

clksel_test : (mux less : ℕ) → Bool
clksel_test mux less =
    let w = clksel_word mux less in
    field w 13 2 == mux && (field w 7 6 == less && w / 65536 == 0x7F80)

clksel_word_lem :
    (mux less : ℕ)
    → mux < 3
    → less < 64
    → (field (clksel_word mux less) 13 2 ≡ mux)
      × (field (clksel_word mux less) 7 6 ≡ less)
      × (clksel_word mux less / 65536 ≡ 0x7F80)
unfolding clksel_test clksel_word
clksel_word_lem mux less inside small =
    let w = clksel_word mux less in
    let test : clksel_test mux less ≡ true =
      all_below-holds (clksel_test mux) 64 less
        (all_below-holds (λ m. all_below (clksel_test m) 64) 3 mux refl inside) small in
    three (field w 13 2) mux (field w 7 6) less (w / 65536) 0x7F80 test
  where
    three :
        (a a' b b' c c' : ℕ)
        → (a == a' && (b == b' && c == c')) ≡ true
        → (a ≡ a') × (b ≡ b') × (c ≡ c')
    three a a' b b' c c' e = ground (arith, e)

set_phase_keeps :
    (sample : Bool) (degrees : ℕ) (m : Mshc)
    → ((set_phase sample degrees m).0.rk_card_clock_hz ≡ m.rk_card_clock_hz)
      × ((set_phase sample degrees m).0.base_clock_frequency_khz ≡ m.base_clock_frequency_khz)
      × ((set_phase sample degrees m).0.cru_clksel ≡ m.cru_clksel)
unfolding set_phase
set_phase_keeps sample degrees m = elim (Bool-cases (ltb m.rk_card_clock_hz 1000)) [
  | inl e ↦ rw e (refl, refl, refl)
  | inr e ↦ elim (Bool-cases sample) [
    | inl s ↦ rw (e, s) (refl, refl, refl)
    | inr s ↦ rw (e, s) (refl, refl, refl)
  ]
]

set_phases_keeps :
    (khz : ℕ) (m : Mshc)
    → ((set_phases khz m).rk_card_clock_hz ≡ m.rk_card_clock_hz)
      × ((set_phases khz m).base_clock_frequency_khz ≡ m.base_clock_frequency_khz)
      × ((set_phases khz m).cru_clksel ≡ m.cru_clksel)
unfolding set_phases
set_phases_keeps khz m =
    let degrees = if leb 100000 khz then 180 else 90 in
    let sampled = (set_phase true 0 m).0 in
    elim (Bool-cases (leb khz 400)) [
      | inl f ↦
          rw (f, set_phases)
            (
              (set_phase_keeps false degrees sampled).0 ∙ (set_phase_keeps true 0 m).0,
              (set_phase_keeps false degrees sampled).1 ∙ (set_phase_keeps true 0 m).1,
              (set_phase_keeps false degrees sampled).2 ∙ (set_phase_keeps true 0 m).2,
            )
      | inr f ↦ rw (f, set_phases) (set_phase_keeps false degrees m)
    ]

map_cru_lem :
    (crashdump maps : Bool) (m : Mshc) → m.rk_cru_mapped ≡ true → map_cru crashdump maps m ≡ m
unfolding map_cru
map_cru_lem crashdump maps m e =
    let test : (not m.rk_cru_mapped && not crashdump) ≡ false = rw e refl in rw test refl

if_true {ℓ} : {A : Type ℓ} (b : Bool) (x y : A) → b ≡ true → (if b then x else y) ≡ x
if_true b x y e = rw e refl

set_clock_returns :
    (crashdump maps : Bool) (khz : ℕ) (m n : Mshc)
    → map_cru crashdump maps m ≡ n
    → n.rk_cru_mapped ≡ true
    → set_clock crashdump maps khz m ≡ (set_phases khz (set_rate khz n), Status.success)
unfolding set_clock
set_clock_returns crashdump maps khz m n same e =
    ap
      (λ t.
        if t.rk_cru_mapped
        then (set_phases khz (set_rate khz t), Status.success)
        else (t, Status.not_supported))
      same
    ∙ if_true n.rk_cru_mapped _ _ e

set_clock_rate :
    (crashdump maps : Bool) (khz : ℕ) (m : Mshc)
    → m.rk_cru_mapped ≡ true
    → ((set_clock crashdump maps khz m).1 ≡ Status.success)
      × ((set_clock crashdump maps khz m).0.rk_card_clock_hz ≡ (set_rate khz m).rk_card_clock_hz)
      × ((set_clock crashdump maps khz m).0.base_clock_frequency_khz ≡ khz)
      × ((set_clock crashdump maps khz m).0.cru_clksel ≡ (set_rate khz m).cru_clksel)
unfolding set_rate
set_clock_rate crashdump maps khz m e =
    let all = set_clock_returns crashdump maps khz m m (map_cru_lem crashdump maps m e) e in
    (
      ap (λ r. r.1) all,
      ap (λ r. r.0.rk_card_clock_hz) all ∙ (set_phases_keeps khz (set_rate khz m)).0,
      ap (λ r. r.0.base_clock_frequency_khz) all ∙ (set_phases_keeps khz (set_rate khz m)).1,
      ap (λ r. r.0.cru_clksel) all ∙ (set_phases_keeps khz (set_rate khz m)).2,
    )

-- With the clock register mapped, and for a frequency from 188 kHz to 1.5 GHz,
-- `MshcRockchipSetClock` succeeds. The card clock is then never faster than asked, and no slower
-- than any divider from 1 to 64 of any of the three parents makes it, if that is not faster than
-- asked; it is half of the parent's rate by the divider that the clock register is given, whose write
-- mask lets through the two fields; and the base clock that the host reports is the frequency asked.
pub set_clock_lem :
    (crashdump maps : Bool) (khz mux d : ℕ) (m : Mshc)
    → m.rk_cru_mapped ≡ true
    → 188 ≤ khz
    → khz ≤ 1500000
    → mux < 3
    → d ≤ 64
    → parent_hz mux ≤ d * (khz * 2000)
    → let (s, status) = set_clock crashdump maps khz m in
      (status ≡ Status.success)
      × (s.rk_card_clock_hz ≤ khz * 1000)
      × (parent_hz mux / d / 2 ≤ s.rk_card_clock_hz)
      × (s.rk_card_clock_hz
          ≡ parent_hz (field s.cru_clksel 13 2) / (field s.cru_clksel 7 6 + 1) / 2)
      × (s.cru_clksel / 65536 ≡ 0x7F80)
      × (s.base_clock_frequency_khz ≡ khz)
unfolding set_rate clksel_word
set_clock_lem crashdump maps khz mux d m mapped low top inside limit reach =
    let (ok, rate, base, register) = set_clock_rate crashdump maps khz m mapped in
    let word : u32 (khz * 1000 * 2) ≡ khz * 2000 = omega arith in
    let best = best_rate_lem (khz * 2000) mux d (omega arith) (omega arith) inside limit reach in
    let hz : (set_clock crashdump maps khz m).0.rk_card_clock_hz ≡ (best_rate (khz * 2000)).hz / 2 =
      rate ∙ ap (λ t. (best_rate t).hz / 2) word in
    let b = best_rate (khz * 2000) in
    let (in_range, any, most, made) = best_rate-Made (khz * 2000) in
    let stored : (set_clock crashdump maps khz m).0.cru_clksel ≡ clksel_word b.mux (b.div - 1) =
      register ∙ ap (λ t. clksel_word (best_rate t).mux ((best_rate t).div - 1)) word in
    let (parent, less, mask) =
      clksel_word_lem b.mux (b.div - 1) in_range (omega (arith, any, most)) in
    let plus : b.div - 1 + 1 ≡ b.div = omega (arith, any) in
    let decoded : parent_hz (field (set_clock crashdump maps khz m).0.cru_clksel 13 2)
          / (field (set_clock crashdump maps khz m).0.cru_clksel 7 6 + 1)
          / 2
        ≡ b.hz / 2 =
      ap (λ w. parent_hz (field w 13 2) / (field w 7 6 + 1) / 2) stored
      ∙ ap (λ n. parent_hz n / (field (clksel_word b.mux (b.div - 1)) 7 6 + 1) / 2) parent
      ∙ ap (λ n. parent_hz b.mux / (n + 1) / 2) less
      ∙ ap (λ n. parent_hz b.mux / n / 2) plus
      ∙ ap (λ n. n / 2) (sym made) in
    (
      ok,
      omega (arith, hz, best),
      omega (arith, hz, best),
      hz ∙ sym decoded,
      ap (λ w. w / 65536) stored ∙ mask,
      base,
    )
