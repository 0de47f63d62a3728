-- ===== src/Tests.antt =====
-- Concrete inputs for the theorems, and instances of the parameters.
mod Doubles
mod Dicts
mod Samples
mod Objects
mod Scores
mod Pools
mod Keys
mod Stores
mod Cycles
mod Numbers
mod Strings
mod Commands
mod Configs
mod Returns
