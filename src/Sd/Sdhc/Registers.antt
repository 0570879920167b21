-- ===== src/Sd/Sdhc/Registers.antt =====
-- Stores to and reads of the registers, and the loops that wait for the controller.
-- `device writes n a` is what the register at `a` answers to the `n`-th read behind the stores.
use woa_rk.Base.{
  ℕ, zero, suc, Bool, true, false, List, [], ◌∷◌, Option, none, some, ◌==◌, if◌then◌else◌,
}
use woa_rk.Sd.Mshc.Types.{NtStatus, nt_success}
use woa_rk.Sd.Sdhc.Types.{SdhcExtension}

-- `SdhcWriteRegisterUlong`, `SdhcWriteRegisterUshort`, `SdhcWriteRegisterUchar`
unfoldable pub store : (a v : ℕ) → SdhcExtension → SdhcExtension
store a v h = record h { writes = (a, v) ∷ h.writes }

-- What was stored last in the register at `a`.
abbrev pub last_store : ℕ → List (ℕ × ℕ) → Option ℕ
last_store a [] = none
last_store a (w ∷ ws) = if w.0 == a then some w.1 else last_store a ws

-- `if (!NT_SUCCESS(Status)) { return Status; }` between two steps.
unfoldable pub then_do :
    SdhcExtension × NtStatus → (SdhcExtension → SdhcExtension × NtStatus) → SdhcExtension × NtStatus
then_do r next = if nt_success r.1 then next r.0 else r

-- The state behind a read.
unfoldable pub loaded : SdhcExtension → SdhcExtension
loaded h = record h { reads = suc h.reads }

module _ (device : List (ℕ × ℕ) → ℕ → ℕ → ℕ) where
  -- `SdhcReadRegisterUlong`, `SdhcReadRegisterUshort`, `SdhcReadRegisterUchar`: the value.
  unfoldable pub load : (a : ℕ) → SdhcExtension → ℕ
  load a h = device h.writes h.reads a

  -- The loops that read the register at `a` until its value passes the test, with `Retries` 1 more
  -- than `tries`: the value that passed, or none.
  unfoldable pub read_until : (tries a : ℕ) → (ℕ → Bool) → SdhcExtension → SdhcExtension × Option ℕ
  unfolding load loaded
  read_until zero a test h = (h, none)
  read_until (suc tries) a test h = elim (test (load a h)) [
    | true ↦ (loaded h, some (load a h))
    | false ↦ read_until tries a test (loaded h)
  ]

  -- The loops of `SdhcSetVoltage`: each round stores `v` and reads the register back.
  unfoldable pub store_until :
      (tries a v : ℕ) → (ℕ → Bool) → SdhcExtension → SdhcExtension × NtStatus
  unfolding load loaded store
  store_until zero a v test h = (h, NtStatus.io_timeout)
  store_until (suc tries) a v test h =
      let g = store a v h in
      elim (test (load a g)) [
        | true ↦ (loaded g, NtStatus.success)
        | false ↦ store_until tries a v test (loaded g)
      ]
