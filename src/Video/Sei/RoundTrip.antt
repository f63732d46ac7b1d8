-- ===== src/Video/Sei/RoundTrip.antt =====
-- A timestamp that was put in front of a frame is read back.
use v3xctrl.Base.{ℕ, ◌≡◌, refl, sym, ◌∙◌, ap, some, [], ◌∷◌, ◌++◌, arith, Option-cases, inl, inr}
use v3xctrl.Base.Bytes.{
  Bytes, ℤ, same_bytes, starts_with, pack_u64, pack_i64, pack_i64-is_pack, unpack_i64,
  unpack-pack_i64,
}
use v3xctrl.Video.Sei.{
  build_sei_nal, parse_payload, try_parse_sei, find_start_code, parse_sei_nal, sei_uuid, sei_header,
  start_code,
}

-- A NAL unit of ours, without its start code, in front of any bytes.
try_parse_sei-built :
    (ts : ℤ) (n : ℕ) (rest : Bytes)
    → unpack_i64 (pack_u64 n) ≡ ts
    → try_parse_sei (sei_header ++ ((sei_uuid ++ pack_u64 n) ++ rest)) ≡ some ts
unfolding try_parse_sei parse_payload same_bytes pack_u64
try_parse_sei-built ts n rest h = ground arith

-- the NAL unit that holds eight given bytes
abbrev nal_of : Bytes → Bytes
nal_of packed = start_code ++ (sei_header ++ ((sei_uuid ++ packed) ++ (0x80 ∷ [])))

build_sei_nal-inv :
    (ts : ℤ) (nal : Bytes)
    → build_sei_nal ts ≡ some nal
    → (n : ℕ) × (nal ≡ nal_of (pack_u64 n)) × (unpack_i64 (pack_u64 n) ≡ ts)
unfolding build_sei_nal
build_sei_nal-inv ts nal h = elim (Option-cases (pack_i64 ts)) [
  | inl e ↦ cc (rw (e, build_sei_nal) at h)
  | inr (d, e) ↦
      let (n, packed) = pack_i64-is_pack ts d e in
      let built : nal_of d ≡ nal = ground arith in
      (n, sym built ∙ ap nal_of packed, ap unpack_i64 (sym packed) ∙ unpack-pack_i64 ts d e)
]

parse-nal_of :
    (ts : ℤ) (n : ℕ) (frame : Bytes)
    → unpack_i64 (pack_u64 n) ≡ ts
    → parse_sei_nal (nal_of (pack_u64 n) ++ frame) ≡ some ts
unfolding parse_sei_nal find_start_code starts_with pack_u64
parse-nal_of ts n frame h = rw (try_parse_sei-built ts n (0x80 ∷ frame) h, parse_sei_nal) refl

-- A timestamp that fits eight bytes signed, built into a NAL unit and put in front of any frame, is
-- what parse_sei_nal finds in the whole.
pub parse-build_sei_nal :
    (ts : ℤ) (nal frame : Bytes)
    → build_sei_nal ts ≡ some nal
    → parse_sei_nal (nal ++ frame) ≡ some ts
parse-build_sei_nal ts nal frame h =
    let (n, built, value) = build_sei_nal-inv ts nal h in rw built (parse-nal_of ts n frame value)
