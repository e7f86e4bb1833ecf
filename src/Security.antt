-- ===== src/Security.antt =====
-- src/core/security.cpp: certificates in PEM, their fingerprints, and the identity of this device.
pub mod Base64
pub mod Sha256
pub mod Pem
pub mod Identity
