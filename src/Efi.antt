-- ===== src/Efi.antt =====
-- lib/efi.py: UEFI Secure Boot variables. `Struct` packs bytes, `Signature` builds signature lists
-- and authenticated variables from them; its child `Auth` has the objects
-- that the tests handle.
pub mod Struct
pub mod Signature
