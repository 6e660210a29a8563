-- ===== src/SoftEther/Sha0/Tests.antt =====
-- The SHA-0 test vector "abc", and witnesses.
use lab_remote_go.Common.{put_u64, ◌≡◌, refl, [], ◌∷◌, some, put_u32}
use lab_remote_go.SoftEther.Sha0.{
  words_bytes, new_sha0, rotate_left, block_words, extend_words, schedule, mix, rounds, compress,
  transform, store, write_from, write, pad_zeros, sum, sha0,
}
use lab_remote_go.SoftEther.Sha0.Blocks.{absorb}
use lab_remote_go.SoftEther.Sha0.Padding.{padded, sha0_lem}

sha0_abc :
    sha0 (0x61 ∷ 0x62 ∷ 0x63 ∷ [])
    ≡ some (
        0x01 ∷ 0x64 ∷ 0xb8 ∷ 0xa9 ∷ 0x14 ∷ 0xcd ∷ 0x2a ∷ 0x5e ∷ 0x74 ∷ 0xc4 ∷ 0xf7 ∷ 0xff ∷ 0x08
        ∷ 0x2c ∷ 0x4d ∷ 0x97 ∷ 0xf1 ∷ 0xed ∷ 0xf8 ∷ 0x80 ∷ [])
unfolding sha0 sum pad_zeros write write_from store transform compress rounds mix schedule
    extend_words block_words rotate_left new_sha0 put_u64 put_u32
sha0_abc = refl

sha0_lem_example :
    sha0 (0x61 ∷ []) ≡ some (words_bytes (absorb 1 (padded (0x61 ∷ [])) new_sha0.state))
unfolding put_u64 put_u32
sha0_lem_example = sha0_lem (0x61 ∷ [])
