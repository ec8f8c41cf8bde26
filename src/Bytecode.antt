-- ===== src/Bytecode.antt =====
-- encoder.c and blueberry_vm/bytecode_load.c: the binary form of a compiled unit, written by the
-- code generator and read by the virtual machine.
mod Tests
pub mod Buffer
pub mod Opcode
pub mod Function
pub mod Encode
pub mod Unit
pub mod Load
pub mod Cache
pub mod Format
pub mod Instruction
