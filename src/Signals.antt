-- ===== src/Signals.antt =====
-- src/downward_pool_storage.cpp, the handler of SIGSEGV and SIGBUS: what it prints, how it hands a
-- fault on, and its installation. Which calls of sigaction fail is the environment's choice.
pub mod Digits
pub mod Report
pub mod Overflow
pub mod SharedOverflow
use mathlib.Core.Option
use doost.Base.{
  bytes_of, ℕ, zero, suc, ◌+◌, ◌/◌, ◌%◌, Bool, true, false, if◌then◌else◌, ◌==◌, Option, none, some,
  List, [], ◌∷◌, ◌++◌, ℤ, pos, negsuc,
}
use doost.String.Text.{c_string}
use doost.Registry.{Registry, find_pool_index}

abbrev pub sigsegv : ℕ
sigsegv = 11

abbrev pub sigbus : ℕ
sigbus = 7

-- What goes to standard error; `none` is nullptr.
unfoldable pub write_all : Option (List ℕ) → List ℕ
write_all none = []
write_all (some text) = c_string text

unfoldable pub signal_name : ℕ → List ℕ
signal_name n =
    if n == sigsegv
    then bytes_of "SIGSEGV"
    else if n == sigbus
    then bytes_of "SIGBUS"
    else bytes_of "signal"

-- The buffer of write_size: digits10 + 1 of a 64-bit size.
abbrev pub buffer_size : ℕ
buffer_size = 20

-- The digits from the last to the first; `none` is a write below the buffer.
write_digits : (room : ℕ) → ℕ → List ℕ → Option (List ℕ)
write_digits zero value written = none
write_digits (suc room) value written =
    let written' = (48 + value % 10) ∷ written in
    let rest = write_digits room (value / 10) written' in
    if value / 10 == 0 then some written' else rest

unfoldable pub write_size : ℕ → Option (List ℕ)
unfolding write_digits
write_size value = write_digits buffer_size value []

-- What sigaction holds for a signal.
pub data Disposition : Type 0 where
  sig_dfl : Disposition
  sig_ign : Disposition
  handler : ℕ → Disposition
  siginfo_handler : ℕ → Disposition
  pool_handler : Disposition

-- How the process goes on after a signal: killed by the signal's default action, left by _exit, or
-- left by _exit after a handler of the program has returned.
pub data Ending : Type 0 where
  killed : (signal_number : ℕ) → Ending
  exited : (status : ℕ) → Ending
  handled : Disposition → (status : ℕ) → Ending

-- g_pool_signal_handler_installed, the saved actions and the current ones.
pub record Handling : Type 0 where
  pub installed : Bool
  pub previous_sigsegv : Disposition
  pub previous_sigbus : Disposition
  pub sigsegv_action : Disposition
  pub sigbus_action : Disposition

unfoldable pub previous_signal_action : ℕ → Handling → Option Disposition
previous_signal_action n h =
    if n == sigsegv
    then some h.previous_sigsegv
    else if n == sigbus
    then some h.previous_sigbus
    else none

abbrev pub raise_with_default_action : ℕ → Ending
raise_with_default_action n = killed n

call_action : ℕ → Option Disposition → Ending
call_action n none = raise_with_default_action n
call_action n (some sig_dfl) = raise_with_default_action n
call_action n (some sig_ign) = exited (128 + n)
call_action n (some d) = handled d (128 + n)

unfoldable pub call_previous_signal_handler : ℕ → Handling → Ending
unfolding call_action previous_signal_action
call_previous_signal_handler n h = call_action n (previous_signal_action n h)

unfoldable pub report : ℕ → Handling → ℤ → List ℕ × Ending
unfolding call_previous_signal_handler signal_name write_size write_all
report n h (negsuc _) = ([], call_previous_signal_handler n h)
report n h (pos index) = (
  write_all (some (bytes_of "doost: "))
      ++ (write_all (some (signal_name n))
          ++ (write_all (some (bytes_of " while accessing protected pool #"))
              ++ (Option.get_or (write_size index) [] ++ write_all (some (bytes_of "\n"))))),
  raise_with_default_action n,
)

-- What goes to standard error, and how the process ends. `none` is a call with no siginfo.
unfoldable pub pool_signal_handler :
    (signal_number : ℕ) (fault_address : Option ℕ) → Registry → Handling → List ℕ × Ending
unfolding report
pool_signal_handler n none registry h = report n h (negsuc 0)
pool_signal_handler n (some address) registry h = report n h (find_pool_index registry address)

-- The two calls of sigaction that may fail; the one that puts SIGSEGV back does not.
unfoldable pub install_pool_overflow_signal_handler :
    (segv_fails bus_fails : Bool) → Handling → Handling
install_pool_overflow_signal_handler segv_fails bus_fails h =
    if h.installed
    then h
    else if segv_fails
    then record h { installed = false }
    else let saved_segv = h.sigsegv_action in
      let segv_set = record h {
        installed = true;
        previous_sigsegv = saved_segv;
        sigsegv_action = pool_handler;
      } in
      if bus_fails
      then record segv_set { installed = false; sigsegv_action = saved_segv }
      else record segv_set {
        previous_sigbus = segv_set.sigbus_action;
        sigbus_action = pool_handler;
      }
