-- ===== src/Tests.antt =====
-- Runs of the definitions at concrete inputs, and the theorems applied to some.
mod Util
mod Caches
mod SkipLists
mod Formats
mod Logs
mod Versions
