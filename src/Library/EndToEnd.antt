-- ===== src/Library/EndToEnd.antt =====
-- A call of the user library does what the same call of the toolkit does.
use nadrvlinux.Prelude.{ℕ, ◌<◌, ◌^◌, List, [], ◌∷◌, length, if◌then◌else◌, ◌≡◌, ap, ◌∙◌}
use nadrvlinux.Codes.{invalid_handle, invalid_parameter, capture_active}
use nadrvlinux.System.{System, M, pure}
use nadrvlinux.Text.{signed, long_unsigned, sprintf, sscanf}
use nadrvlinux.Text.RoundTrip.{sscanf-sprintf}
use nadrvlinux.Tasks.{Status, count}
use nadrvlinux.Command.{resync_time, config_pi_controller}
use nadrvlinux.Capture.{signal_driver_error}
use nadrvlinux.Attributes.{
  with_one, with_two, Info, finish, failed, pi_config, time_config, fwerror_store,
}
use nadrvlinux.Library.{
  Client, lib_capture_running, write_file, lib_config_pi_controller, lib_resync_time,
  signal_drv_error,
}
use nadrvlinux.Library.Through.{forget}
use nadrvlinux.Library.Calls.{
  Call, set_mode, set_output, set_voltage, config_pi, resync, signal, direct, Fitting,
  resync_time-Small, signal_driver_error-Small, config_pi-small,
}
use nadrvlinux.Library.Reach.{
  through, Able, granted, idle, answered, opened_node, set_mode-through, set_output-through,
  set_voltage-through,
}

config_pi-through :
    (c : Client) (t : Info) (p i : ℕ) (s : System)
    → Able c t
    → (p < 2 ^ 32) × (i < 2 ^ 32)
    → forget (lib_config_pi_controller c p i t s) ≡ config_pi_controller p i s
unfolding lib_config_pi_controller pi_config config_pi_controller
config_pi-through c t p i s a (f0, f1) =
    let cs = signed ∷ signed ∷ [] in
    let vs = p ∷ i ∷ [] in
    let buf = sprintf cs vs [] in
    let other = pure (failed c.task invalid_parameter t) in
    let act : ℕ → ℕ → M (Status × Info) = λ p i. finish c.task buf t (config_pi_controller p i) in
    let handler = pi_config c.task buf t in
    let busy = pure (capture_active, t) in
    ap (λ (x : M (ℕ × Info)). forget (x s))
      (granted c t
          (if lib_capture_running c then busy else write_file c invalid_parameter t handler) a
        ∙ idle c t busy (write_file c invalid_parameter t handler) a)
    ∙ answered c t buf handler (config_pi_controller p i) s a
        (opened_node c t (pure (failed c.task invalid_handle t))
            (with_two (sscanf cs buf) other act) a
          ∙ ap (λ (xs : List ℕ). with_two xs other act) (sscanf-sprintf cs vs [] (f0, (f1, tt)) tt))
        config_pi-small

resync-through :
    (c : Client) (t : Info) (time : ℕ) (s : System)
    → Able c t
    → time < 2 ^ 64
    → forget (lib_resync_time c time t s) ≡ resync_time time s
unfolding lib_resync_time time_config
resync-through c t time s a f =
    let buf = sprintf (long_unsigned ∷ []) (time ∷ []) [] in
    let other = pure (failed c.task invalid_parameter t) in
    let act : ℕ → M (Status × Info) = λ x. finish c.task buf t (resync_time x) in
    let handler = time_config c.task buf t in
    ap (λ (x : M (ℕ × Info)). forget (x s))
      (granted c t (write_file c invalid_parameter t handler) a)
    ∙ answered c t buf handler (resync_time time) s a
        (opened_node c t (pure (failed c.task invalid_handle t))
            (with_one (sscanf (long_unsigned ∷ []) buf) other act) a
          ∙ ap (λ (xs : List ℕ). with_one xs other act)
              (sscanf-sprintf (long_unsigned ∷ []) (time ∷ []) [] (f, tt) tt))
        (resync_time-Small time s)

signal-through :
    (c : Client) (t : Info) (error : ℕ) (s : System)
    → Able c t
    → error < 2 ^ 32
    → forget (signal_drv_error c error t s) ≡ signal_driver_error error s
unfolding signal_drv_error fwerror_store
signal-through c t error s a f =
    let buf = sprintf (signed ∷ []) (error ∷ []) [] in
    let other = pure (count (length buf), t) in
    let act : ℕ → M (Status × Info) = λ x. finish c.task buf t (signal_driver_error x) in
    let handler = fwerror_store c.task buf t in
    ap (λ (x : M (ℕ × Info)). forget (x s))
      (granted c t (write_file c invalid_parameter t handler) a)
    ∙ answered c t buf handler (signal_driver_error error) s a
        (opened_node c t (pure (failed c.task invalid_handle t))
            (with_one (sscanf (signed ∷ []) buf) other act) a
          ∙ ap (λ (xs : List ℕ). with_one xs other act)
              (sscanf-sprintf (signed ∷ []) (error ∷ []) [] (f, tt) tt))
        (signal_driver_error-Small error s)

-- For a client that has the device open, with no capture on it, with the attribute files at hand and
-- with memory in the kernel for the entry of its task, and for arguments of the declared widths: a call of the user library, which prints the arguments to an
-- attribute file, whose handler scans them, calls the toolkit and keeps its error for the task, which
-- the library reads and scans, gives the code that the same call of the toolkit gives, and leaves the
-- device in the same state, or waits for ever where the toolkit does.
pub through-direct :
    (call : Call) (c : Client) (t : Info) (s : System)
    → Able c t
    → Fitting call
    → forget (through c call t s) ≡ direct call s
through-direct (set_mode gpio m) c t s a f = set_mode-through c t gpio m s a f
through-direct (set_output gpio level) c t s a f = set_output-through c t gpio level s a f
through-direct (set_voltage mask voltage) c t s a f = set_voltage-through c t mask voltage s a f
through-direct (config_pi p i) c t s a f = config_pi-through c t p i s a f
through-direct (resync time) c t s a f = resync-through c t time s a f
through-direct (signal error) c t s a f = signal-through c t error s a f
