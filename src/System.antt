-- ===== src/System.antt =====
-- The thread that runs a function of the toolkit, and what surrounds it: the operating system's
-- waits and clock (OS_WaitEvent, OS_GetMilliSecCounter), its files (OS_FileWrite, OS_FileSeek,
-- OS_FileClose) and the callbacks of the user. The operating system is not code of the toolkit: its
-- returns are given as a script.
pub mod Run
use nadrvlinux.Prelude.{ℕ, Option, none, some, List, [], ◌∷◌, ◌++◌}
use nadrvlinux.Device.{Device}

-- One return of `OS_WaitEvent`: the millisecond counter that is read next, and what the interrupt,
-- the DSR, the firmware and other threads have done to the device since the wait began.
pub record Wake : Type 0 where
  pub clock : ℕ
  pub act : Device → Device

-- What a thread meets while it runs: the counter, the returns of its waits in order, the number of
-- bytes that the n-th write to a file takes of those given, and what it has done itself, oldest
-- first.
pub data Effect : Type 0 where
  file_write : Option ℕ → List ℕ → Effect
  file_seek : Option ℕ → ℕ → Effect
  file_close : ℕ → Effect
  data_callback : List ℕ → Effect
  status_callback : (state error : ℕ) → Effect

pub record System : Type 0 where
  pub device : Device
  pub clock : ℕ
  pub wakes : List Wake
  pub writes : ℕ
  pub accepts : ℕ → ℕ → ℕ
  pub trace : List Effect

-- `none`: the thread is still in a wait when the list of wakes ends.
abbrev pub M : Type 0 → Type 0
M A = System → Option (A × System)

abbrev pub pure : {A : Type 0} → A → M A
pure a s = some (a, s)

infixl 5 ◌>>=◌ ◌>>◌
abbrev pub ◌>>=◌ : {A B : Type 0} → M A → (A → M B) → M B
◌>>=◌ m f s = elim (m s) [ none ↦ none | some (a, s') ↦ f a s' ]

abbrev pub ◌>>◌ : {B : Type 0} → M (Unit {0}) → M B → M B
m >> k = m >>= λ _. k

abbrev pub the_device : M Device
the_device s = some (s.device, s)

abbrev pub modify : (Device → Device) → M (Unit {0})
modify f s = some (tt, record s { device = f s.device })

abbrev pub effect : Effect → M (Unit {0})
effect e s = some (tt, record s { trace = s.trace ++ e ∷ [] })
