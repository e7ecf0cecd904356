-- ===== src/Crypto.antt =====
-- RNS/Cryptography: PKCS7 padding, tokens (encrypt, then authenticate) and HKDF. AES in CBC mode
-- and HMAC-SHA256 are parameters.
pub mod Pkcs7
pub mod Token
pub mod Hkdf
mod Tests
