-- ===== src/Video/Sei.antt =====
-- v3xctrl_helper/sei.py. A position in the data is the suffix that begins there.
pub mod RoundTrip
use v3xctrl.Base.{
  ℕ, zero, suc, ◌+◌, ◌%◌, Bool, Option, none, some, List, [], ◌∷◌, ◌++◌, ltb, leb, ◌==◌, ◌&&◌, ◌||◌,
  nat_eq, length, take, drop, if◌then◌else◌,
}
use v3xctrl.Base.Bytes.{Bytes, same_bytes, starts_with, pack_i64, unpack_i64, be_value, ℤ}

abbrev pub sei_uuid : Bytes
sei_uuid =
    0xef ∷ 0x84 ∷ 0x0f ∷ 0xbc ∷ 0x7f ∷ 0x77 ∷ 0x40 ∷ 0x18 ∷ 0x86 ∷ 0xad ∷ 0x83 ∷ 0xd7 ∷ 0x13 ∷ 0xd2
    ∷ 0x75 ∷ 0x92 ∷ []

abbrev pub start_code : Bytes
start_code = 0 ∷ 0 ∷ 0 ∷ 1 ∷ []

-- NAL_HEADER_SEI, SEI_TYPE_USER_DATA_UNREGISTERED, SEI_PAYLOAD_SIZE
abbrev pub sei_header : Bytes
sei_header = 0x06 ∷ 0x05 ∷ 24 ∷ []

-- `none` is the struct.error of a timestamp that does not fit eight bytes.
unfoldable pub build_sei_nal : ℤ → Option Bytes
build_sei_nal timestamp_us = elim (pack_i64 timestamp_us) [
  | none ↦ none
  | some packed ↦ some (start_code ++ (sei_header ++ ((sei_uuid ++ packed) ++ (0x80 ∷ []))))
]

-- from `uuid_start` on
unfoldable pub parse_payload : Bytes → Option ℤ
parse_payload d =
    if ltb (length d) 24
    then none
    else if same_bytes (take 16 d) sei_uuid
    then some (unpack_i64 (take 8 (drop 16 d)))
    else none

-- from `sei_start` on
unfoldable pub parse_sei_body : Bytes → Option ℤ
parse_sei_body (payload_type ∷ payload_size ∷ d) =
    if payload_type == 0x05 && payload_size == 24 then parse_payload d else none
parse_sei_body _ = none

-- _try_parse_sei, at the suffix that begins with the NAL header; `x & 0x1F` is `x % 32`.
unfoldable pub try_parse_sei : Bytes → Option ℤ
unfolding parse_sei_body
try_parse_sei [] = none
try_parse_sei (header ∷ d) = if header % 32 == 6 then parse_sei_body d else none

-- `data.find(START_CODE, pos)`, counted from `pos`; `none` is -1.
unfoldable pub find_start_code : Bytes → Option ℕ
find_start_code [] = none
find_start_code (x ∷ d) =
    let later : Option ℕ = elim (find_start_code d) [ none ↦ none | some k ↦ some (suc k) ] in
    if starts_with start_code (x ∷ d) then some 0 else later

-- The first loop. A round drops four bytes at least, so the length of the data is enough fuel.
unfoldable pub annex_b_loop : ℕ → Bytes → Option ℤ
annex_b_loop zero d = none
annex_b_loop (suc fuel) d = elim (find_start_code d) [
  | none ↦ none
  | some k ↦
      let rest = drop (k + 4) d in
      elim (try_parse_sei rest) [ none ↦ annex_b_loop fuel rest | some ts ↦ some ts ]
]

-- The second loop, over units with a four-byte length in front.
unfoldable pub avc_loop : ℕ → Bytes → Option ℤ
avc_loop zero d = none
avc_loop (suc fuel) d =
    let nal_len = be_value 0 (take 4 d) in
    let unit = drop 4 d in
    let rest : Option ℤ = elim (try_parse_sei unit) [
      | none ↦ avc_loop fuel (drop nal_len unit)
      | some ts ↦ some ts
    ] in
    if leb (length d) 4
    then none
    else if nal_len == 0 || ltb (length d) (4 + nal_len)
    then none
    else rest

unfoldable pub parse_sei_nal : Bytes → Option ℤ
unfolding annex_b_loop avc_loop
parse_sei_nal d = elim (annex_b_loop (length d) d) [
  | none ↦ avc_loop (length d) d
  | some ts ↦ some ts
]
