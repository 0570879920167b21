-- ===== src/Sd/Sdhc/Divider.antt =====
-- The divider of the SoC for the clock of the eMMC.
use woa_rk.Base.{
  ℕ, ◌+◌, ◌-◌, ◌*◌, ◌/◌, ◌<◌, ◌≤◌, Bool, true, ◌≡◌, refl, inl, inr, Bool-cases, arith, bit_or,
  field, u32, leb, ltb, leb→le, if◌then◌else◌, ◌&&◌, ◌==◌, ==_iff,
}
use woa_rk.Base.Flags.{all_below-holds}
use woa_rk.Sd.Sdhc.Clock.{parent_rate, parent_mux, cru_divider, cru_word}
use woa_rk.Sd.Rate.{div-antitone}
use native.Mathlib.Nat.{lt_of_mul-lt-mul_right, div-le_of_le-mul, div-mul-le_self, lt-div-mul-add}

parent_rate_bounds : (hz : ℕ) → (24000000 ≤ parent_rate hz) × (parent_rate hz ≤ 400000000)
unfolding parent_rate
parent_rate_bounds hz = elim (Bool-cases (leb 24000000 hz)) [
  | inl e ↦ rw (e, parent_rate) (omega arith, omega arith)
  | inr e ↦ rw (e, parent_rate) (omega arith, omega arith)
]

-- The parent is at most 64 times the frequency, if this is 375 kHz at least.
parent_rate_near : (hz : ℕ) → 375000 ≤ hz → parent_rate hz ≤ 64 * hz
unfolding parent_rate
parent_rate_near hz h = elim (Bool-cases (leb 24000000 hz)) [
  | inl e ↦ let le = leb→le _ _ e in rw (e, parent_rate) (omega arith)
  | inr e ↦ rw (e, parent_rate) (omega arith)
]

-- The limits change nothing of a divider within them.
limit_lem : (c : ℕ) → 0 < c → c ≤ 64 → (if ltb c 1 then 1 else if ltb 64 c then 64 else c) ≡ c
limit_lem c pos h = ground arith

-- The divider is the least that does not exceed the frequency.
cru_divider_lem :
    (hz d : ℕ)
    → 375000 ≤ hz
    → hz < 100000000
    → d ≤ 64
    → parent_rate hz ≤ d * hz
    → (0 < cru_divider hz) × (cru_divider hz ≤ d) × (parent_rate hz ≤ cru_divider hz * hz)
unfolding cru_divider
cru_divider_lem hz d slow fast limit reach =
    let p = parent_rate hz in
    let (some, most) = parent_rate_bounds hz in
    let c = (p + hz - 1) / hz in
    let below : p + hz - 1 < c * hz + hz = lt-div-mul-add (omega arith) in
    let above : c * hz ≤ p + hz - 1 = div-mul-le_self (p + hz - 1) hz in
    let word : u32 (p + hz + 4294967295) ≡ p + hz - 1 = omega (arith, some, most, slow, fast) in
    let more : c * hz < (d + 1) * hz = grind arith in
    let fits : c < d + 1 = lt_of_mul-lt-mul_right hz more in
    let least : 0 * hz < c * hz = grind arith in
    let any : 0 < c = lt_of_mul-lt-mul_right hz least in
    let same : cru_divider hz ≡ c = rw word (limit_lem c any (omega (arith, fits, limit))) in
    rw same (any, omega (arith, fits), omega (arith, below, slow))

-- The rate that a word in the clock register of the SoC stands for: the field from bit 14 on
-- chooses the parent, and the 6 bits from 8 on are the divider less 1.
abbrev pub programmed_hz : (word : ℕ) → ℕ
programmed_hz word = (if field word 14 2 == 0 then 400000000 else 24000000) / (field word 8 6 + 1)

-- The fields of a word are what was put there, for both parents.
decodes : (mux n : ℕ) → Bool
decodes mux n =
    let word = bit_or mux (bit_or 0xFF000000 (n * 256)) in
    field word 8 6 == n && field word 14 2 == mux / 16384

decodes_all : (n : ℕ) → n < 64 → (decodes 0 n ≡ true) × (decodes 0x8000 n ≡ true)
unfolding decodes
decodes_all n lt =
    (all_below-holds (decodes 0) 64 n refl lt, all_below-holds (decodes 0x8000) 64 n refl lt)

both : (a b : Bool) → (a && b) ≡ true → (a ≡ true) × (b ≡ true)
both a b e = (ground (arith, e), ground (arith, e))

fields_of :
    (mux n : ℕ)
    → decodes mux n ≡ true
    → (field (bit_or mux (bit_or 0xFF000000 (n * 256))) 8 6 ≡ n)
      × (field (bit_or mux (bit_or 0xFF000000 (n * 256))) 14 2 ≡ mux / 16384)
unfolding decodes
fields_of mux n e =
    let word = bit_or mux (bit_or 0xFF000000 (n * 256)) in
    let (a, b) = both (field word 8 6 == n) (field word 14 2 == mux / 16384) e in
    ((==_iff (field word 8 6) n).0 a, (==_iff (field word 14 2) (mux / 16384)).0 b)

programmed_hz-cru_word :
    (hz n : ℕ)
    → n < 64
    → cru_divider hz ≡ n + 1
    → programmed_hz (cru_word hz) ≡ parent_rate hz / (n + 1)
unfolding cru_word parent_mux parent_rate
programmed_hz-cru_word hz n lt e =
    let less : n + 1 - 1 ≡ n = omega arith in
    elim (Bool-cases (leb 24000000 hz)) [
      | inl f ↦
          let (a, b) = fields_of 0 n (decodes_all n lt).0 in
          rw (f, cru_word, parent_mux, parent_rate, e, less, a, b) refl
      | inr f ↦
          let (a, b) = fields_of 0x8000 n (decodes_all n lt).1 in
          rw (f, cru_word, parent_mux, parent_rate, e, less, a, b) refl
    ]

-- For a frequency from 375 kHz on and below 100 MHz, the word that `DwcSdhcRkSetClock` stores in
-- the clock register of the SoC stands for a rate that is not above the frequency, and of the
-- rates that a divider of up to 64 makes of the same parent and that are not above it, for the
-- highest.
pub cru_word_lem :
    (hz : ℕ)
    → 375000 ≤ hz
    → hz < 100000000
    → (programmed_hz (cru_word hz) ≤ hz)
      × ((d : ℕ)
          → d ≤ 64
          → parent_rate hz ≤ d * hz
          → parent_rate hz / d ≤ programmed_hz (cru_word hz))
cru_word_lem hz slow fast =
    let near = parent_rate_near hz slow in
    let (any, most, below) = cru_divider_lem hz 64 slow fast (omega arith) near in
    let n = cru_divider hz - 1 in
    let whole : cru_divider hz ≡ n + 1 = omega (arith, any) in
    let same = programmed_hz-cru_word hz n (omega (arith, any, most)) whole in
    let within : parent_rate hz ≤ (n + 1) * hz = rw whole at below in
    (
      rw same (div-le_of_le-mul (n + 1) within),
      λ d limit reach.
          let (pos, least, enough) = cru_divider_lem hz d slow fast limit reach in
          rw same
            (div-antitone (parent_rate hz) (n + 1) d (omega arith) (omega (arith, least, whole))),
    )
