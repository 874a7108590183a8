-- ===== src/Tests.antt =====
-- Concrete inputs for the theorems of the library.
mod Tracee
mod System
mod Collector
mod Syscalls
mod Lifecycle
mod Director
mod Source
mod Wire
mod Decode
mod Live
mod Picture
mod App
mod Display
mod Whole
mod Samples
