-- ===== src/Crypto.antt =====
-- The privacy layer: crypto/Paillier.cpp, crypto/Heps.cpp and the match of broker/broker.cpp.
pub mod Gmp
pub mod Paillier
pub mod Heps
pub mod Residues
pub mod Cipher
pub mod Blinding
pub mod Threshold
pub mod Matching
pub mod Discovery
pub mod Agreement
pub mod Loading
pub mod Generation
pub mod Runs
