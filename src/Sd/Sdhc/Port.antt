-- ===== src/Sd/Sdhc/Port.antt =====
-- The data port: `SdhcReadDataPort`, `SdhcWriteDataPort`.
use woa_rk.Base.{ℕ, zero, suc, ◌+◌, ◌-◌, ◌*◌, ◌%◌, List, if◌then◌else◌, leb, ltb, ◌&&◌, field}
use woa_rk.Sd.Sdhc.Types.{SdhcExtension, sdhc_data_port}
use woa_rk.Sd.Sdhc.Registers.{store, load, loaded}

-- The low `n` bytes of `v` at the address `a`, the lowest first.
unfoldable pub put_bytes : (n a v : ℕ) → (ℕ → ℕ) → ℕ → ℕ
put_bytes n a v m b = if leb a b && ltb b (a + n) then field v (8 * (b - a)) 8 else m b

-- The number of the `n` bytes at the address `a`, the lowest first.
unfoldable pub get_bytes : (n a : ℕ) → (ℕ → ℕ) → ℕ
get_bytes zero a m = 0
get_bytes (suc n) a m = m a % 256 + 256 * get_bytes n (a + 1) m

-- The store of `n` bytes of memory in the port at `port`.
unfoldable pub write_port : (n port a : ℕ) → SdhcExtension → SdhcExtension
unfolding store
write_port n port a h = store port (get_bytes n a h.memory) h

-- `SdhcWriteDataPort` behind its loop.
unfoldable pub write_tail : (a length : ℕ) → SdhcExtension → SdhcExtension
write_tail a length h =
    let pair = leb 2 length in
    let g = if pair then write_port 2 sdhc_data_port a h else h in
    let b = if pair then a + 2 else a in
    let left = if pair then length - 2 else length in
    if leb 1 left then write_port 1 (sdhc_data_port + 2) b g else g

-- `SdhcWriteDataPort`, with fuel for its loop.
unfoldable pub write_words : (fuel a length : ℕ) → SdhcExtension → SdhcExtension
write_words zero a length h = write_tail a length h
write_words (suc fuel) a length h =
    let rest = write_words fuel (a + 4) (length - 4) (write_port 4 sdhc_data_port a h) in
    if leb 4 length then rest else write_tail a length h

unfoldable pub write_data_port : (a length : ℕ) → SdhcExtension → SdhcExtension
write_data_port a length h = write_words length a length h

module _ (device : List (ℕ × ℕ) → ℕ → ℕ → ℕ) where
  -- A read of the port at `port`, of which `n` bytes go to memory.
  unfoldable pub read_port : (n port a : ℕ) → SdhcExtension → SdhcExtension
  unfolding load loaded
  read_port n port a h = record (loaded h) { memory = put_bytes n a (load device port h) h.memory }

  -- `SdhcReadDataPort` behind its loop.
  unfoldable pub read_tail : (a length : ℕ) → SdhcExtension → SdhcExtension
  read_tail a length h =
      let pair = leb 2 length in
      let g = if pair then read_port 2 sdhc_data_port a h else h in
      let b = if pair then a + 2 else a in
      let left = if pair then length - 2 else length in
      if leb 1 left then read_port 1 (sdhc_data_port + 2) b g else g

  -- `SdhcReadDataPort`, with fuel for its loop.
  unfoldable pub read_words : (fuel a length : ℕ) → SdhcExtension → SdhcExtension
  read_words zero a length h = read_tail a length h
  read_words (suc fuel) a length h =
      let rest = read_words fuel (a + 4) (length - 4) (read_port 4 sdhc_data_port a h) in
      if leb 4 length then rest else read_tail a length h

  unfoldable pub read_data_port : (a length : ℕ) → SdhcExtension → SdhcExtension
  read_data_port a length h = read_words length a length h
