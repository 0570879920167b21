-- ===== src/Sd/Mshc/Word.antt =====
-- The bits of the command word, `MshcSendCommand`.
use woa_rk.Base.{ℕ, ◌<◌, Bool, true, false, not, ◌&&◌, ◌||◌, flag, ◌==◌, ◌≡◌}
use woa_rk.Sd.Mshc.Types.{
  Command, ResponseType, TransferType, resp_none, resp_r1, resp_r2, resp_r3, resp_r4, resp_r5,
  resp_r6, resp_r1b, resp_r5b, resp_undefined,
}
use woa_rk.Sd.Mshc.Requests.{is_write}

-- What the SD specification says of the types of a response: the bits of the response, and whether
-- it has a check sum.
abbrev pub response_length : ResponseType → ℕ
response_length resp_none = 0
response_length resp_undefined = 0
response_length resp_r2 = 136
response_length resp_r1 = 48
response_length resp_r1b = 48
response_length resp_r3 = 48
response_length resp_r4 = 48
response_length resp_r5 = 48
response_length resp_r5b = 48
response_length resp_r6 = 48

abbrev pub has_check_sum : ResponseType → Bool
has_check_sum resp_none = false
has_check_sum resp_undefined = false
has_check_sum resp_r3 = false
has_check_sum resp_r4 = false
has_check_sum resp_r1 = true
has_check_sum resp_r1b = true
has_check_sum resp_r2 = true
has_check_sum resp_r5 = true
has_check_sum resp_r5b = true
has_check_sum resp_r6 = true

-- The blocks that a transfer moves: none, one, or more.
pub data Blocks : Type 0 where
  no_blocks one_block more_blocks : Blocks

abbrev pub blocks_of : TransferType → Blocks
blocks_of TransferType.single_block = one_block
blocks_of TransferType.multi_block = more_blocks
blocks_of _ = no_blocks

abbrev pub moves_blocks : Blocks → Bool
moves_blocks no_blocks = false
moves_blocks one_block = true
moves_blocks more_blocks = true

abbrev pub moves_more_blocks : Blocks → Bool
moves_more_blocks no_blocks = false
moves_more_blocks one_block = false
moves_more_blocks more_blocks = true

-- What each bit of the command word is, by the controller's layout of it. The commands that stop or
-- abort are CMD0, CMD12, CMD15 and CMD52, and CMD11 switches the voltage.
pub record CommandBits (c : Command) (initialized : Bool) (w : ℕ) : Type 0 where
  pub index : (k : ℕ) → k < 6 → flag w k ≡ flag c.index k
  pub start : flag w 31 ≡ true
  pub hold : flag w 29 ≡ true
  pub initialize : flag w 15 ≡ not initialized
  pub abort : flag w 14 ≡ (c.index == 0 || (c.index == 12 || (c.index == 15 || c.index == 52)))
  pub switches : flag w 28 ≡ (c.index == 11)
  pub expects : flag w 6 ≡ not (response_length c.response_type == 0)
  pub crc : flag w 8 ≡ has_check_sum c.response_type
  pub long : flag w 7 ≡ (response_length c.response_type == 136)
  pub expects_data : flag w 9 ≡ moves_blocks (blocks_of c.transfer_type)
  pub waits : flag w 13 ≡ moves_blocks (blocks_of c.transfer_type)
  pub writes :
      flag w 10 ≡ (moves_blocks (blocks_of c.transfer_type) && is_write c.transfer_direction)
  pub auto_stop : flag w 12 ≡ (c.use_auto_cmd12 && moves_more_blocks (blocks_of c.transfer_type))
