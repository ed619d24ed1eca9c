-- ===== src/Efi/Struct.antt =====
-- lib/efi.py: `efi_pack`, `pack_guid` and the sizes of packed structures. A format is the list of
-- its fields. `struct` in native mode is that of a little-endian machine.
pub mod Laws
use xcp_ng_tests.Prelude.{
  ℕ, zero, suc, ◌+◌, ◌-◌, ◌*◌, ◌/◌, ◌%◌, ◌^◌, List, [], ◌∷◌, ◌++◌, length, take, ltb, if◌then◌else◌,
}
use xcp_ng_tests.Effect.{Result, ok, err, struct_error, value_error, bind}
use xcp_ng_tests.Prelude.{all}

-- Python's `bytes`, each below 256.
abbrev pub Bytes : Type 0
Bytes = List ℕ

-- `w` bytes of a number, least significant first.
unfoldable pub le_bytes : ℕ → ℕ → Bytes
le_bytes zero n = []
le_bytes (suc w) n = n % 256 ∷ le_bytes w (n / 256)

pub data Field : Type 0 where
  u8 u16 u32 efi_guid : Field

pub data Arg : Type 0 where
  num : ℕ → Arg
  raw : Bytes → Arg

abbrev pub field_size : Field → ℕ
field_size u8 = 1
field_size u16 = 2
field_size u32 = 4
field_size efi_guid = 16

-- An integer field raises when the number does not fit.
unfoldable pub pack_uint : ℕ → ℕ → Result Bytes
pack_uint w n = if ltb n (256 ^ w) then ok (le_bytes w n) else err struct_error

abbrev pub zeros : Bytes
zeros = 0 ∷ 0 ∷ 0 ∷ 0 ∷ 0 ∷ 0 ∷ 0 ∷ 0 ∷ 0 ∷ 0 ∷ 0 ∷ 0 ∷ 0 ∷ 0 ∷ 0 ∷ 0 ∷ []

-- `16s` cuts its bytes to 16 or fills them up with zeros.
unfoldable pub pack_raw : Bytes → Bytes
pack_raw b = take 16 (b ++ zeros)

unfoldable pub pack_field : Field → Arg → Result Bytes
pack_field u8 (num n) = pack_uint 1 n
pack_field u16 (num n) = pack_uint 2 n
pack_field u32 (num n) = pack_uint 4 n
pack_field efi_guid (raw b) = ok (pack_raw b)
pack_field u8 (raw b) = err struct_error
pack_field u16 (raw b) = err struct_error
pack_field u32 (raw b) = err struct_error
pack_field efi_guid (num n) = err struct_error

unfoldable pub efi_pack : List Field → List Arg → Result Bytes
efi_pack [] [] = ok []
efi_pack [] (a ∷ args) = err struct_error
efi_pack (f ∷ fmt) [] = err struct_error
efi_pack (f ∷ fmt) (a ∷ args) =
    bind (pack_field f a) λ b. bind (efi_pack fmt args) λ bs. ok (b ++ bs)

-- Native mode aligns an integer to its own size; `16s` needs no alignment.
abbrev alignment : Field → ℕ
alignment efi_guid = 1
alignment u8 = 1
alignment u16 = 2
alignment u32 = 4

size_from : ℕ → List Field → ℕ
size_from offset [] = offset
size_from offset (f ∷ fmt) =
    let aligned = (offset + alignment f - 1) / alignment f * alignment f in
    size_from (aligned + field_size f) fmt

-- `struct.calcsize`
unfoldable pub calcsize : List Field → ℕ
unfolding size_from
calcsize fmt = size_from 0 fmt

-- `bytes(data4)` raises on a number that is no byte.
unfoldable pub pack_guid : ℕ → ℕ → ℕ → List ℕ → Result Bytes
pack_guid data1 data2 data3 data4 = bind (pack_uint 4 data1) λ a. bind (pack_uint 2 data2) λ b.
    bind (pack_uint 2 data3)
      λ c. if all (λ x. ltb x 256) data4 then ok (a ++ (b ++ (c ++ data4))) else err value_error
