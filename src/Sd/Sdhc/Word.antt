-- ===== src/Sd/Sdhc/Word.antt =====
-- The word for the command register.
use woa_rk.Base.{
  ℕ, ◌+◌, ◌*◌, ◌/◌, ◌%◌, ◌^◌, ◌<◌, Bool, true, false, ◌&&◌, Option, none, some, ◌≡◌, ◌≢◌, refl, ap,
  ◌∙◌, arith, field, flag, u16, bit_or, ◌==◌, ==_iff, if◌then◌else◌, ltb, ltb→lt, subst,
}
use woa_rk.Base.Bits.{bit_or_low, zero-bit_or}
use woa_rk.Base.Flags.{or_if, all_below, all_below-holds}
use woa_rk.Sd.Mshc.Types.{
  ResponseType, resp_none, resp_r1, resp_r2, resp_r3, resp_r4, resp_r5, resp_r6, resp_r1b, resp_r5b,
  resp_undefined,
}
use woa_rk.Sd.Sdhc.Types.{
  SdhcCommand, CommandType, type_normal, type_suspend, type_resume, type_abort,
}
use woa_rk.Sd.Sdhc.Fields.{cmd_crc_check_enable, cmd_index_check_enable, cmd_data_present}
use woa_rk.Sd.Sdhc.Commands.{response_bits, type_bits, names_transfer, command_reg}

-- What the standard asks of the register: the code of the response's length, whether its check sum
-- and its index are checked, and the code of the command's type.
abbrev pub length_code : ResponseType → ℕ
length_code resp_none = 0
length_code resp_undefined = 0
length_code resp_r2 = 1
length_code resp_r1b = 3
length_code resp_r5b = 3
length_code _ = 2

abbrev pub has_crc : ResponseType → Bool
has_crc resp_none = false
has_crc resp_undefined = false
has_crc resp_r3 = false
has_crc resp_r4 = false
has_crc _ = true

abbrev pub has_index : ResponseType → Bool
has_index resp_r2 = false
has_index t = has_crc t

abbrev pub type_code : CommandType → ℕ
type_code type_normal = 0
type_code type_suspend = 1
type_code type_resume = 2
type_code type_abort = 3

-- The low byte of the word: the response's bits, the data bit, the type.
low_byte : (r : ℕ) (data_present : Bool) (t : ℕ) → ℕ
low_byte r data_present t = bit_or (or_if data_present 32 r) (64 * t)

low_ok : (data_present : Bool) (t r : ℕ) → Bool
low_ok data_present t r =
    let b = low_byte r data_present t in
    (ltb (or_if data_present 32 r) 256 && ltb b 256)
    && (field b 0 5 == r && (field b 5 1 == (if data_present then 1 else 0) && field b 6 2 == t))

low_ok_all : (data_present : Bool) (t r : ℕ) → t < 3 → r < 32 → low_ok data_present t r ≡ true
unfolding low_ok low_byte or_if
low_ok_all true t r lt small =
    all_below-holds (low_ok true t) 32 r
      (all_below-holds (λ t. all_below (low_ok true t) 32) 3 t refl lt) small
low_ok_all false t r lt small =
    all_below-holds (low_ok false t) 32 r
      (all_below-holds (λ t. all_below (low_ok false t) 32) 3 t refl lt) small

-- The parts of the low byte.
abbrev Parts : (data_present : Bool) (t r : ℕ) → Type 0
Parts d t r =
    (or_if d 32 r < 256)
    × (low_byte r d t < 256)
    × (field (low_byte r d t) 0 5 ≡ r)
    × (field (low_byte r d t) 5 1 ≡ (if d then 1 else 0))
    × (field (low_byte r d t) 6 2 ≡ t)

all_four :
    (a b c d e : Bool)
    → ((a && b) && (c && (d && e))) ≡ true
    → (a ≡ true) × (b ≡ true) × (c ≡ true) × (d ≡ true) × (e ≡ true)
all_four true true true true true h = (refl, refl, refl, refl, refl)
all_four false b c d e h = absurd (ground (arith, h))
all_four true false c d e h = absurd (ground (arith, h))
all_four true true false d e h = absurd (ground (arith, h))
all_four true true true false e h = absurd (ground (arith, h))
all_four true true true true false h = absurd (ground (arith, h))

low_byte-Parts : (d : Bool) (t r : ℕ) → t < 3 → r < 32 → Parts d t r
unfolding low_ok
low_byte-Parts d t r lt small =
    let b = low_byte r d t in
    let (x, y, z, v, w) =
      all_four (ltb (or_if d 32 r) 256) (ltb b 256) (field b 0 5 == r)
        (field b 5 1 == (if d then 1 else 0)) (field b 6 2 == t) (low_ok_all d t r lt small) in
    (
      ltb→lt _ _ x,
      ltb→lt _ _ y,
      (==_iff (field b 0 5) r).0 z,
      (==_iff (field b 5 1) (if d then 1 else 0)).0 v,
      (==_iff (field b 6 2) t).0 w,
    )

-- The index stands above the low byte.
joined :
    (index t r : ℕ) (d : Bool)
    → index < 64
    → t < 3
    → r < 32
    → bit_or (or_if d 32 (bit_or (u16 (index * 256)) r)) (64 * t) ≡ index * 256 + low_byte r d t
unfolding low_byte or_if
joined index t r d fits lt small =
    let first : u16 (index * 256) ≡ index * 2 ^ 8 + 0 = omega arith in
    let second : bit_or (u16 (index * 256)) r ≡ index * 2 ^ 8 + r =
      ap (λ x. bit_or x r) first
      ∙ bit_or_low 8 index 0 r (omega arith) (omega arith)
      ∙ ap (λ x. index * 2 ^ 8 + x) (zero-bit_or r) in
    let third : or_if d 32 (index * 2 ^ 8 + r) ≡ index * 2 ^ 8 + or_if d 32 r = present d in
    ap (λ x. bit_or (or_if d 32 x) (64 * t)) second
    ∙ ap (λ x. bit_or x (64 * t)) third
    ∙ bit_or_low 8 index (or_if d 32 r) (64 * t) (low_byte-Parts d t r lt small).0 (omega arith)
  where
    present : (d : Bool) → or_if d 32 (index * 2 ^ 8 + r) ≡ index * 2 ^ 8 + or_if d 32 r
    present true = bit_or_low 8 index r 32 (omega arith) (omega arith)
    present false = refl

-- The fields of a word are those of its low byte, and the index.
word_fields :
    (i low bits : ℕ)
    → i < 64
    → low < 256
    → field low 0 5 ≡ bits
    → (field (i * 256 + low) 8 6 ≡ i)
      × (field (i * 256 + low) 0 2 ≡ field bits 0 2)
      × (flag (i * 256 + low) cmd_crc_check_enable ≡ flag bits cmd_crc_check_enable)
      × (flag (i * 256 + low) cmd_index_check_enable ≡ flag bits cmd_index_check_enable)
      × (field (i * 256 + low) cmd_data_present 1 ≡ field low 5 1)
      × (field (i * 256 + low) 6 2 ≡ field low 6 2)
word_fields i low bits fits byte e =
    let crc : (i * 256 + low) / 8 % 2 ≡ bits / 8 % 2 = omega (arith, e) in
    let index : (i * 256 + low) / 16 % 2 ≡ bits / 16 % 2 = omega (arith, e) in
    (
      omega (arith, fits, byte),
      omega (arith, e),
      ap (λ x. x == 1) crc,
      ap (λ x. x == 1) index,
      omega arith,
      omega arith,
    )

-- What the response's bits have to be.
abbrev Fits : ResponseType → ℕ → Type 0
Fits type bits =
    (bits < 32)
    × (field bits 0 2 ≡ length_code type)
    × (flag bits cmd_crc_check_enable ≡ has_crc type)
    × (flag bits cmd_index_check_enable ≡ has_index type)

some-Fits : (type : ResponseType) (r bits : ℕ) → some r ≡ some bits → Fits type r → Fits type bits
some-Fits type r bits e =
    let value : Option ℕ → ℕ = λ o. elim o [ none ↦ 0 | some x ↦ x ] in
    subst (Fits type) (ap value e)

response_bits-Fits :
    (type : ResponseType) (bits : ℕ) → response_bits type ≡ some bits → Fits type bits
unfolding response_bits
response_bits-Fits resp_none bits e = some-Fits resp_none 0 bits e (omega arith, refl, refl, refl)
response_bits-Fits resp_r1 bits e = some-Fits resp_r1 0x1A bits e (omega arith, refl, refl, refl)
response_bits-Fits resp_r5 bits e = some-Fits resp_r5 0x1A bits e (omega arith, refl, refl, refl)
response_bits-Fits resp_r6 bits e = some-Fits resp_r6 0x1A bits e (omega arith, refl, refl, refl)
response_bits-Fits resp_r1b bits e = some-Fits resp_r1b 0x1B bits e (omega arith, refl, refl, refl)
response_bits-Fits resp_r5b bits e = some-Fits resp_r5b 0x1B bits e (omega arith, refl, refl, refl)
response_bits-Fits resp_r2 bits e = some-Fits resp_r2 0x09 bits e (omega arith, refl, refl, refl)
response_bits-Fits resp_r3 bits e = some-Fits resp_r3 0x02 bits e (omega arith, refl, refl, refl)
response_bits-Fits resp_r4 bits e = some-Fits resp_r4 0x02 bits e (omega arith, refl, refl, refl)
response_bits-Fits resp_undefined bits e = absurd (ground (arith, e))

type_bits_lem :
    (t : CommandType) → t ≢ type_abort → (type_bits t ≡ 64 * type_code t) × (type_code t < 3)
unfolding type_bits
type_bits_lem type_normal h = (refl, omega arith)
type_bits_lem type_suspend h = (refl, omega arith)
type_bits_lem type_resume h = (refl, omega arith)
type_bits_lem type_abort h = absurd (h refl)

-- For a command with an index of 6 bits that is no abort, and a response that the driver knows, the
-- command register is given the index, the code of the response's length, the checks of the check
-- sum and of the index that the response has, whether data follows, and the code of the type,
-- each in its field.
pub command_reg_lem :
    (c : SdhcCommand) (bits : ℕ)
    → c.index < 64
    → c.type ≢ type_abort
    → response_bits c.response_type ≡ some bits
    → (let w = command_reg bits c in
        (field w 8 6 ≡ c.index)
        × (field w 0 2 ≡ length_code c.response_type)
        × (flag w cmd_crc_check_enable ≡ has_crc c.response_type)
        × (flag w cmd_index_check_enable ≡ has_index c.response_type)
        × (field w cmd_data_present 1 ≡ (if names_transfer c.transfer_type then 1 else 0))
        × (field w 6 2 ≡ type_code c.type))
unfolding command_reg
command_reg_lem c bits fits kind known =
    let d = names_transfer c.transfer_type in
    let t = type_code c.type in
    let (small, size, crc, index) = response_bits-Fits c.response_type bits known in
    let (same, lt) = type_bits_lem c.type kind in
    let low = low_byte bits d t in
    let (x, byte, r, present, type) = low_byte-Parts d t bits lt small in
    let word : command_reg bits c ≡ c.index * 256 + low =
      ap (bit_or (or_if d 32 (bit_or (u16 (c.index * 256)) bits))) same
      ∙ joined c.index t bits d fits lt small in
    let (high, a, b, e, f, g) = word_fields c.index low bits fits byte r in
    (
      ap (λ w. field w 8 6) word ∙ high,
      ap (λ w. field w 0 2) word ∙ a ∙ size,
      ap (λ w. flag w cmd_crc_check_enable) word ∙ b ∙ crc,
      ap (λ w. flag w cmd_index_check_enable) word ∙ e ∙ index,
      ap (λ w. field w cmd_data_present 1) word ∙ f ∙ present,
      ap (λ w. field w 6 2) word ∙ g ∙ type,
    )
