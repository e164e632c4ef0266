-- ===== src/Handshake/Tests.antt =====
-- Toggles and waits on a device at rest.
use nadrvlinux.Prelude.{not, none, [], ◌∷◌, ◌==◌, if◌then◌else◌, ◌≡◌, ◌≢◌, u16}
use nadrvlinux.System.{System}
use nadrvlinux.Sample.{sample_device, sample_system}
use nadrvlinux.Handshake.{toggle_bit, wait_for_bit_state, bitstate_equal, mdio_bit, default_timeout}
use nadrvlinux.Handshake.Laws.{
  agrees, agrees-toggle_bit, WaitResult, HasLate, wait_for_bit_state-WaitResult,
}

abbrev asked : System
asked = record sample_system {
  device = toggle_bit mdio_bit sample_device;
  wakes =
      record { clock = 1; act = λ d. d }
      ∷ record { clock = 2; act = λ d. record d { netx_flags = 8 } }
      ∷ record { clock = 2000; act = λ d. d }
      ∷ [];
}

agrees-toggle_bit_example :
    (agrees (toggle_bit 3 sample_device) 3
      ≡ (if 3 == 3 then not (agrees sample_device 3) else agrees sample_device 3))
    × ((toggle_bit 3 sample_device).hsk_host_flags ≡ u16 (toggle_bit 3 sample_device).host_flags)
    × ((toggle_bit 3 sample_device).netx_flags ≡ sample_device.netx_flags)
agrees-toggle_bit_example = agrees-toggle_bit sample_device 3 3

wait_for_bit_state-WaitResult_example :
    WaitResult mdio_bit bitstate_equal default_timeout asked
      (wait_for_bit_state mdio_bit bitstate_equal default_timeout asked)
    × (HasLate asked.clock default_timeout asked.wakes
        → wait_for_bit_state mdio_bit bitstate_equal default_timeout asked ≢ none)
wait_for_bit_state-WaitResult_example =
    wait_for_bit_state-WaitResult mdio_bit bitstate_equal default_timeout asked
