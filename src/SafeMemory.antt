-- ===== src/SafeMemory.antt =====
-- src/safe_memory.cpp: safe_read_uint8, which reads one byte under temporary signal handlers. Which
-- addresses fault and which calls of sigaction fail is the environment's choice, an argument.
pub mod Restores
use doost.Base.{ℕ, ◌+◌, Bool, if◌then◌else◌, ◌==◌, not, Option, none, some}

pub data Signal : Type 0 where
  sigsegv : Signal
  sigbus : Signal

abbrev pub signal_number : Signal → ℕ
signal_number sigsegv = 11
signal_number sigbus = 7

-- What a signal does: safe_read_signal_handler, or what the program had installed before.
pub data Action : Type 0 where
  safe_read_handler : Action
  program_action : ℕ → Action

-- The calls of sigaction in the order of the text.
pub data SigactionCall : Type 0 where
  install_segv : SigactionCall
  install_bus : SigactionCall
  undo_segv : SigactionCall
  restore_bus : SigactionCall
  restore_segv : SigactionCall

-- `fault p` is the signal that reading the byte at `p` raises, if any; `failure c` is errno where
-- the call `c` of sigaction fails.
pub record Environment : Type 0 where
  pub fault : ℕ → Option Signal
  pub byte : ℕ → ℕ
  pub failure : SigactionCall → Option ℕ

-- The actions of the two signals, errno and g_read_active.
pub record Process : Type 0 where
  pub segv : Action
  pub bus : Action
  pub errno : ℕ
  pub read_active : ℕ

-- How a piece of code ends: it goes on, it leaves the process by _exit, or a signal runs a handler
-- of the program.
pub data Ending (A : Type 0) : Type 0 where
  goes_on : A → Process → Ending A
  exits : (status : ℕ) → Ending A
  runs_program_action : ℕ → Ending A

-- TemporarySignalHandlers, with the actions that install found.
pub record Handlers : Type 0 where
  pub previous_segv : Action
  pub previous_bus : Action

abbrev pub action_of : Signal → Process → Action
action_of sigsegv p = p.segv
action_of sigbus p = p.bus

abbrev pub set_action : Signal → Action → Process → Process
set_action sigsegv a p = record p { segv = a }
set_action sigbus a p = record p { bus = a }

-- sigaction sets the action, or fails with errno.
abbrev pub sigaction : Option ℕ → Signal → Action → Process → Process
sigaction none signal a p = set_action signal a p
sigaction (some errno) signal a p = record p { errno = errno }

abbrev pub fails : Option ℕ → Bool
fails none = Bool.false
fails (some _) = Bool.true

module _ (env : Environment) where
  open env use {fault, byte, failure}

  -- TemporarySignalHandlers::install, with the handlers that it saved.
  unfoldable pub install : Process → Bool × Handlers × Process
  install p =
      let saved : Handlers = record { previous_segv = p.segv; previous_bus = p.bus } in
      let p₁ = sigaction (failure install_segv) sigsegv safe_read_handler p in
      if fails (failure install_segv)
      then (Bool.false, saved, p₁)
      else let p₂ = sigaction (failure install_bus) sigbus safe_read_handler p₁ in
        if fails (failure install_bus)
        then (Bool.false, saved, sigaction (failure undo_segv) sigsegv saved.previous_segv p₂)
        else (Bool.true, saved, p₂)

  -- TemporarySignalHandlers::restore
  unfoldable pub restore : Handlers → Process → Process
  restore h p =
      sigaction (failure restore_segv) sigsegv h.previous_segv
        (sigaction (failure restore_bus) sigbus h.previous_bus p)

  -- safe_read_signal_handler: where the jump is taken the second arm of sigsetjmp goes on.
  unfoldable pub safe_read_signal_handler : Signal → Process → Ending (Option ℕ)
  safe_read_signal_handler signal p =
      if not (p.read_active == 0)
      then goes_on none (record p { read_active = 0 })
      else exits (128 + signal_number signal)

  deliver : Signal → Action → Process → Ending (Option ℕ)
  unfolding safe_read_signal_handler
  deliver signal safe_read_handler p = safe_read_signal_handler signal p
  deliver signal (program_action a) p = runs_program_action a

  -- The volatile read.
  read_byte : Option Signal → ℕ → Process → Ending (Option ℕ)
  unfolding deliver
  read_byte none value p = goes_on (some value) (record p { read_active = 0 })
  read_byte (some signal) value p = deliver signal (action_of signal p) p

  -- The body between install and restore.
  unfoldable pub guarded_read : ℕ → Process → Ending (Option ℕ)
  unfolding read_byte
  guarded_read address p = read_byte (fault address) (byte address) (record p { read_active = 1 })

  finish : (saved_errno : ℕ) → Handlers → Ending (Option ℕ) → Ending (Option ℕ)
  unfolding restore
  finish saved_errno h (goes_on result p) =
      goes_on result (record (restore h p) { errno = saved_errno })
  finish saved_errno h (exits status) = exits status
  finish saved_errno h (runs_program_action a) = runs_program_action a

  unfoldable pub safe_read_uint8 : ℕ → Process → Ending (Option ℕ)
  unfolding install guarded_read finish
  safe_read_uint8 address p =
      let saved_errno = p.errno in
      let (installed, handlers, q) = install p in
      if not installed
      then goes_on none (record q { errno = saved_errno })
      else finish saved_errno handlers (guarded_read address q)
