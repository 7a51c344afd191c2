-- ===== src/Examples/Faults.antt =====
-- Instances for the safe read and the signal handler.
use doost.Base.{if◌then◌else◌, ◌==◌, ◌≡◌, refl, arith, Bool, true, false, List, [], ◌∷◌, none, some}
use doost.Registry.{Registry, entry}
use doost.SafeMemory
use doost.SafeMemory.{Environment, Process, goes_on, safe_read_uint8}
use doost.SafeMemory.Restores.{safe_read_uint8-answer}
use doost.Signals.{
  Handling, siginfo_handler, sig_dfl, killed, pool_signal_handler,
  install_pool_overflow_signal_handler,
}
use doost.Base.{◌+◌, ◌^◌, bytes_of}
use doost.Blocks.{Request, request}
use doost.DownwardPool.{allocate}
use doost.DownwardPool.Allocate.{allocate_all}
use doost.Examples.Pools.{made_pool, made_process}
use doost.Signals.Report.{install-Consistent, Consistent}

-- The null page faults, and no call of sigaction fails.
abbrev null_faults : Environment
null_faults = record {
  fault = λ p. if p == 0 then some SafeMemory.sigsegv else none;
  byte = λ _. 42;
  failure = λ _. none;
}

abbrev process : Process
process = record {
  segv = SafeMemory.program_action 1;
  bus = SafeMemory.program_action 2;
  errno = 5;
  read_active = 0;
}

safe_read_uint8-answer_example : safe_read_uint8 null_faults 0 process ≡ goes_on none process
safe_read_uint8-answer_example =
    safe_read_uint8-answer null_faults 0 process (record { undo = refl; bus = refl; segv = refl })
      refl

abbrev pub fresh : Handling
fresh = record {
  installed = false;
  previous_sigsegv = sig_dfl;
  previous_sigbus = sig_dfl;
  sigsegv_action = sig_dfl;
  sigbus_action = siginfo_handler 7;
}

abbrev one_pool : Registry
one_pool = entry 4096 8192 ∷ []

fresh-Consistent : Consistent fresh
fresh-Consistent = ground arith

install-Consistent_example :
    let g = install_pool_overflow_signal_handler false true fresh in
    Consistent g
    × (g.installed ≡ false
        → (g.sigsegv_action ≡ fresh.sigsegv_action) × (g.sigbus_action ≡ fresh.sigbus_action))
    × ((a b : Bool) → g.installed ≡ true → install_pool_overflow_signal_handler a b g ≡ g)
install-Consistent_example = install-Consistent false true fresh fresh-Consistent

-- 42 bytes are free, and 64 are asked for.
abbrev nearly_full : List Request
nearly_full = request 8150 1 ∷ []

-- The block would begin in the guard page, and the report names pool 0.
overflow_run :
    let a = (allocate 64 16 (allocate_all nearly_full made_pool).1).0 in
    (a ≡ 2 ^ 32 + 4064)
    × (pool_signal_handler 11 (some a) made_process.registry fresh
        ≡ (bytes_of "doost: SIGSEGV while accessing protected pool #0\n", killed 11))
unfolding allocate allocate_all pool_signal_handler doost.Registry.find_pool_index
    doost.DownwardPool.construct doost.Storage.make_downward_pool_storage
    doost.Registry.register_pool_guard
overflow_run = (refl, refl)
