-- ===== src/Signals/SharedOverflow.antt =====
-- A NonblockingDownwardPool whose threads run into its guard pages: the class, its storage, the registry
-- and pool_signal_handler.
use doost.Posix.{Posix}
use doost.NonblockingPool.{NonblockingPool}
