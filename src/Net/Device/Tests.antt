-- ===== src/Net/Device/Tests.antt =====
-- The device of the Ethernet driver on concrete values.
use woa_rk.Base.{true, false, [], none, some, ◌≡◌, refl, inl, ◌<◌, ◌≤◌, flag, field, ◌⊎◌}
use woa_rk.Net.Device.Types.{DeviceContext, channel_tx, channel_rx}
use woa_rk.Net.Device.Interrupts.{make_channel_interrupt_enable, interrupt_isr}
use woa_rk.Net.Device.Link.{new_config, device_reset}
use woa_rk.Net.Device.Config.{Configured, new_config_lem}
use woa_rk.Net.Device.Reset.{device_reset_lem}
use woa_rk.Net.Device.Told.{Told}
use woa_rk.Net.Device.Waiting.{Running, Covered, isr_turn, no_turn, then_turn}
use woa_rk.Net.Device.Notified.{Turns-Covered, Turns-enabled}

-- A device that wants the interrupts for its state and for received packets.
abbrev device : DeviceContext
device = record {
  interrupt_status = 0;
  interrupts_wanted = 3;
  rx_queue = true;
  tx_queue = false;
  isr_handled = 0;
  isr_ignored = 0;
  dpc_link_state = 0;
  dpc_rx = 0;
  dpc_tx = 0;
  dpc_abnormal_status = 0;
  dpc_fatal_bus_error = 0;
  rx_own_descriptors = 0;
  rx_done_fragments = 0;
  tx_done_fragments = 0;
  mac_enable = 1;
  channel_enable = make_channel_interrupt_enable 3;
  cleared = [];
  told = [];
}

abbrev running : Running
running = record {
  context = device;
  taken = [];
  rearming = 0;
  rx_arming = none;
  tx_arming = none;
  rx_sets = 0;
  tx_sets = 0;
}

running-Covered : Covered running
running-Covered = record { rx = refl; tx = refl; enabled = inl refl }

-- An interrupt for received packets.
abbrev interrupted : Running
interrupted = record running { context = (interrupt_isr 0 0x40 device).0 }

Turns-Covered_example : Covered interrupted × Told running interrupted
Turns-Covered_example =
    Turns-Covered running interrupted (then_turn (no_turn running) (isr_turn 0 0x40 running))
      running-Covered

Turns-enabled_example :
    (true ≡ true → flag (make_channel_interrupt_enable 3) channel_rx ≡ true)
    × (false ≡ true → flag (make_channel_interrupt_enable 3) channel_tx ≡ true)
Turns-enabled_example =
    Turns-enabled running running (no_turn running) running-Covered refl refl refl refl refl

device_reset_lem_example :
    (3 ≤ 4294966296 → device_reset (λ n. 1) 3 ≡ none)
    × (4294966296 < 3 → device_reset (λ n. 1) 3 ≡ some false)
device_reset_lem_example = device_reset_lem (λ n. 1) (λ n. refl) 3

new_config_lem_example :
    (field 0x30000 17 2 ≡ 0 × Configured (field 0x30000 16 1) 2 7 (new_config 0x30000 7))
    ⊎ (field 0x30000 17 2 ≡ 1 × Configured (field 0x30000 16 1) 3 7 (new_config 0x30000 7))
    ⊎ (field 0x30000 17 2 ≡ 2 × Configured (field 0x30000 16 1) 0 7 (new_config 0x30000 7))
    ⊎ (field 0x30000 17 2 ≡ 3
        × Configured (field 0x30000 16 1) (field 7 14 2) 7 (new_config 0x30000 7))
new_config_lem_example = new_config_lem 0x30000 7
