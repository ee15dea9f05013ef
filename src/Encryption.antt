-- ===== src/Encryption.antt =====
-- bitchat/encryption.py: the Noise XX handshake, the transport ciphers and the service.
pub mod Crypto
pub mod Cipher
pub mod Handshake
pub mod Agreement
pub mod Service
pub mod Channel
