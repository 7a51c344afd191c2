-- ===== src/Examples.antt =====
-- Tests of the definitions on small inputs, and the theorems at inputs that meet their hypotheses.
mod Pools
mod PoolPrograms
mod SharedPools
mod SharedFaults
mod Copying
mod Sleepers
mod Faults
mod Strings
mod Guards
mod PoolLists
mod Lists
