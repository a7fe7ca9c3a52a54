-- ===== src/Bpf.antt =====
-- hornet/bpf: instruction words, the arithmetic of the machine and the control-flow graph.
pub mod Codes
pub mod Names
pub mod Arith
pub mod Instr
pub mod Region
pub mod Cfg
pub mod Maps
pub mod Globals
pub mod Link
pub mod Witness
