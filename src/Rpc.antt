-- ===== src/Rpc.antt =====
-- The package rpc: encryption of bodies (rpc/aesctrcrypt.go, rpc/rsacrypt.go) and framing of
-- messages (rpc/msg.go, util/ioutil.go).
pub mod Fault
pub mod Aes
pub mod Rsa
pub mod Writer
pub mod Frame
pub mod Message
pub mod Tests
