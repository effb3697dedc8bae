-- ===== src/Tests/Addresses.antt =====
-- Addresses of slaves.
use libmbus.Base.{◌≡◌, refl, [], ◌∷◌, arith, pos, true}
use libmbus.Frame.{zero_frame, payload}
use libmbus.Address.{
  select_secondary_pack, header_address, is_secondary_address, all_xdigits, isxdigit, id_byte,
  id_nibble,
}
use libmbus.Codec.Text.{digit_value}
use libmbus.Address.Laws.{select_secondary_pack-header_address}
use libmbus.Tests.Answers.{water_header}

select_secondary_pack-header_address_example :
    ((select_secondary_pack zero_frame (header_address water_header)).0 ≡ pos 0)
    × (payload (select_secondary_pack zero_frame (header_address water_header)).1
        ≡ 0x78 ∷ 0x56 ∷ 0x34 ∷ 0x12 ∷ 0x24 ∷ 0x40 ∷ 1 ∷ 7 ∷ [])
select_secondary_pack-header_address_example =
    select_secondary_pack-header_address zero_frame water_header 0x78 0x56 0x34 0x12 0x24 0x40 refl
      refl refl
      (
        (omega arith, omega arith),
        (
          (omega arith, omega arith),
          ((omega arith, omega arith), ((omega arith, omega arith), tt)),
        ),
      )
      (omega arith, (omega arith, (omega arith, (omega arith, tt))))

-- The digits A to E pass the test of an address, but A is stored as 1.
letter_digit :
    (is_secondary_address (
        b'A' ∷ b'0' ∷ b'0' ∷ b'0' ∷ b'0' ∷ b'0' ∷ b'0' ∷ b'0' ∷ b'0' ∷ b'0' ∷ b'0' ∷ b'0' ∷ b'0'
        ∷ b'0' ∷ b'0' ∷ b'0' ∷ [])
      ≡ true)
    × (id_byte (b'A' ∷ b'0' ∷ []) 0 ≡ 0x10)
unfolding is_secondary_address all_xdigits isxdigit digit_value id_byte id_nibble
letter_digit = (refl, refl)
