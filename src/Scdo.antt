-- ===== src/Scdo.antt =====
-- The SCDO package (go/scdo).
mod Bytecode
mod Tx
mod BigInt
mod Client
mod Tests
