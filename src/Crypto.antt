-- ===== src/Crypto.antt =====
-- app/crypto/policy.py, app/crypto/keyring.py, and the wrapper of app/crypto/gpg_wrapper.py around python-gnupg.
pub mod Policy
pub mod Gpg
pub mod Keyring
