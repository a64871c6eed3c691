-- ===== src/Sha256/Tests.antt =====
-- Known digests, and the theorems at concrete inputs.
use elden_ring_windowed_hdr.Common.{ℕ, ◌≡◌, refl, some, List, [], ◌∷◌}
use elden_ring_windowed_hdr.Sha256.Compress.{compress}
use elden_ring_windowed_hdr.Sha256.Hasher.{new, update, finalize}
use elden_ring_windowed_hdr.Sha256.Chunks.{updates, flatten}
use elden_ring_windowed_hdr.Sha256.Padding.{digest_of, finalize-updates}
use elden_ring_windowed_hdr.Sha256.Hex.{reads, ends, file_hex, hex_digest, file_hex_lem}

abbrev abc : List ℕ
abc = b'a' ∷ b'b' ∷ b'c' ∷ []

digest_abc :
    finalize (update new abc)
    ≡ 0xBA ∷ 0x78 ∷ 0x16 ∷ 0xBF ∷ 0x8F ∷ 0x01 ∷ 0xCF ∷ 0xEA ∷ 0x41 ∷ 0x41 ∷ 0x40 ∷ 0xDE ∷ 0x5D
      ∷ 0xAE ∷ 0x22 ∷ 0x23 ∷ 0xB0 ∷ 0x03 ∷ 0x61 ∷ 0xA3 ∷ 0x96 ∷ 0x17 ∷ 0x7A ∷ 0x9C ∷ 0xB4 ∷ 0x10
      ∷ 0xFF ∷ 0x61 ∷ 0xF2 ∷ 0x00 ∷ 0x15 ∷ 0xAD ∷ []
unfolding finalize update new compress
digest_abc = refl

finalize-updates_example :
    finalize (updates new ((b'a' ∷ []) ∷ [] ∷ (b'b' ∷ b'c' ∷ []) ∷ []))
    ≡ digest_of (flatten ((b'a' ∷ []) ∷ [] ∷ (b'b' ∷ b'c' ∷ []) ∷ []))
finalize-updates_example = finalize-updates ((b'a' ∷ []) ∷ [] ∷ (b'b' ∷ b'c' ∷ []) ∷ [])

file_hex_lem_example :
    file_hex (some (reads b'a' [] (reads b'b' (b'c' ∷ []) ends))) ≡ hex_digest (some abc)
file_hex_lem_example = file_hex_lem (reads b'a' [] (reads b'b' (b'c' ∷ []) ends))
