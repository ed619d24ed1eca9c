-- ===== src/Efi/Struct/Laws.antt =====
-- Packed numbers can be read back.
use xcp_ng_tests.Prelude.{
  ℕ, zero, suc, ◌+◌, ◌*◌, ◌/◌, ◌^◌, ◌<◌, ◌≡◌, refl, ap, ◌∙◌, ◌≤◌, length-append, List, [], ◌∷◌,
  arith, length, take, drop, ◌++◌, take-append, drop-append,
}
use xcp_ng_tests.Effect.{ok, err, struct_error}
use xcp_ng_tests.Effect.Laws.{bind-eq-ok}
use xcp_ng_tests.Efi.Struct.{
  Bytes, le_bytes, pack_uint, pack_raw, pack_field, efi_pack, zeros, Field, Arg, field_size, u8,
  u16, u32, efi_guid, num, raw,
}
use native.Mathlib.Nat.{pow-suc}

-- The number that little-endian bytes stand for.
unfoldable pub from_le : Bytes → ℕ
from_le [] = 0
from_le (b ∷ bs) = b + 256 * from_le bs

pub length-le_bytes : (w n : ℕ) → length (le_bytes w n) ≡ w
unfolding le_bytes
length-le_bytes zero n = refl
length-le_bytes (suc w) n = ap suc (length-le_bytes w (n / 256))

pub from_le-le_bytes : (w n : ℕ) → n < 256 ^ w → from_le (le_bytes w n) ≡ n
unfolding le_bytes from_le
from_le-le_bytes zero n h = omega arith
from_le-le_bytes (suc w) n h =
    omega (arith, from_le-le_bytes w (n / 256) (omega (arith, pow-suc 256 w)))

pub pack_uint-fits : (w n : ℕ) → n < 256 ^ w → pack_uint w n ≡ ok (le_bytes w n)
unfolding pack_uint
pack_uint-fits w n h = ground arith

pub pack_uint-eq-ok :
    (w n : ℕ) {b : Bytes} → pack_uint w n ≡ ok b → (n < 256 ^ w) × (le_bytes w n ≡ b)
unfolding pack_uint
pack_uint-eq-ok w n h = ground arith

take_filled : (n : ℕ) (xs ys : Bytes) → n ≤ length ys → length (take n (xs ++ ys)) ≡ n
take_filled zero xs ys h = refl
take_filled (suc n) (x ∷ xs) ys h = ap suc (take_filled n xs ys (omega arith))
take_filled (suc n) [] [] h = absurd (omega arith)
take_filled (suc n) [] (y ∷ ys) h = ap suc (take_filled n [] ys (omega arith))

length-uint : (w n : ℕ) {b : Bytes} → pack_uint w n ≡ ok b → length b ≡ w
length-uint w n h = rw (← (pack_uint-eq-ok w n h).1) (length-le_bytes w n)

length-pack_field :
    (f : Field) (a : Arg) {b : Bytes} → pack_field f a ≡ ok b → length b ≡ field_size f
unfolding pack_field pack_raw
length-pack_field u8 (num n) h = length-uint 1 n h
length-pack_field u16 (num n) h = length-uint 2 n h
length-pack_field u32 (num n) h = length-uint 4 n h
length-pack_field efi_guid (num n) h = absurd (cc)
length-pack_field efi_guid (raw b) {b = c} h =
    let e : take 16 (b ++ zeros) ≡ c = cc in rw (← e) (take_filled 16 b zeros (omega arith))
length-pack_field u8 (raw b) h = absurd (cc)
length-pack_field u16 (raw b) h = absurd (cc)
length-pack_field u32 (raw b) h = absurd (cc)

-- The sum of the sizes of the fields, with no padding between them.
abbrev pub packed_size : List Field → ℕ
packed_size [] = 0
packed_size (f ∷ fmt) = field_size f + packed_size fmt

-- Packed bytes are as many as the fields of the format have together.
pub length-efi_pack :
    (fmt : List Field) (args : List Arg) {b : Bytes}
    → efi_pack fmt args ≡ ok b
    → length b ≡ packed_size fmt
unfolding efi_pack
length-efi_pack [] [] {b} h = let e : [] ≡ b = cc in rw (← e) refl
length-efi_pack [] (a ∷ args) h = absurd (cc)
length-efi_pack (f ∷ fmt) [] h = absurd (cc)
length-efi_pack (f ∷ fmt) (a ∷ args) {b} h =
    let (c, hc, h') = bind-eq-ok (pack_field f a) _ h in
    let (cs, hcs, e) = bind-eq-ok (efi_pack fmt args) _ h' in
    let e' : c ++ cs ≡ b = cc in
    rw (← e')
      (length-append c cs ∙ omega (arith, length-pack_field f a hc, length-efi_pack fmt args hcs))

pub pack_field-u32 : (n : ℕ) → n < 256 ^ 4 → pack_field u32 (num n) ≡ ok (le_bytes 4 n)
unfolding pack_field
pack_field-u32 n h = pack_uint-fits 4 n h

pub pack_field-u16 : (n : ℕ) → n < 256 ^ 2 → pack_field u16 (num n) ≡ ok (le_bytes 2 n)
unfolding pack_field
pack_field-u16 n h = pack_uint-fits 2 n h

pub pack_field-efi_guid : (b : Bytes) → length b ≡ 16 → pack_field efi_guid (raw b) ≡ ok b
unfolding pack_field pack_raw
pack_field-efi_guid b h = ap ok (take-append 16 b _ h)

pub take-le_bytes : (w n : ℕ) (rest : Bytes) → take w (le_bytes w n ++ rest) ≡ le_bytes w n
take-le_bytes w n rest = take-append w _ rest (length-le_bytes w n)

pub drop-le_bytes : (w n : ℕ) (rest : Bytes) → drop w (le_bytes w n ++ rest) ≡ rest
drop-le_bytes w n rest = drop-append w _ rest (length-le_bytes w n)

pub pack_field-u32_overflow : (n : ℕ) → ¬ (n < 256 ^ 4) → pack_field u32 (num n) ≡ err struct_error
unfolding pack_field pack_uint
pack_field-u32_overflow n h = ground arith
