-- ===== src/Tests/Media.antt =====
-- The codecs at single samples and bytes.
use simple_sip_rs.Prelude.{◌+◌, ◌*◌, ◌≤◌, ◌≡◌, refl, arith}
use Prim.Native.Nat.{max}
use simple_sip_rs.Prelude.Word.{negate}
use simple_sip_rs.Media.Pcmu.G711 as Mu
use simple_sip_rs.Media.Pcma.G711 as A
use simple_sip_rs.Media.G711Codec.Quality.{g711_quality, g711_restored}

mu_law_samples : (Mu.encode 1000 ≡ 0xce) × (Mu.decode 0xce ≡ 988) × (Mu.decode 0x4e ≡ negate 988)
unfolding Mu.encode Mu.encode_magnitude Mu.decode Mu.decode_magnitude
mu_law_samples = (refl, refl, refl)

g711_restored_example : (Mu.encode (Mu.decode 0x7f) ≡ 0xff) × (A.encode (A.decode 0x7f) ≡ 0x7f)
g711_restored_example = g711_restored 0x7f (omega arith)

g711_quality_example :
    ((Mu.decode (Mu.encode 64535) ≡ negate (Mu.decode (Mu.encode 1000)))
      × (32 * Mu.decode (Mu.encode 1000) ≤ 33 * 1000 + 132)
      × (31 * 1000 ≤ 32 * Mu.decode (Mu.encode 1000) + 132))
    × ((A.decode (A.encode 64535) ≡ negate (A.decode (A.encode 1000)))
        × (32 * A.decode (A.encode 1000) ≤ 32 * 1000 + max 1000 256)
        × (32 * 1000 ≤ 32 * A.decode (A.encode 1000) + max 1000 256))
g711_quality_example = g711_quality 64535 (omega arith)
