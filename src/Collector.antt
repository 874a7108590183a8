-- ===== src/Collector.antt =====
-- collector/tracer.c: the reading of a string in the tracee's memory, the handling of a stop, and the loop
-- over the reports of `waitpid`.
pub mod Memory
pub mod Stop
pub mod Loop
