-- ===== src/Media/G711Codec/Quality.antt =====
-- What both codecs of src/media/pcmu.rs and src/media/pcma.rs keep of a sample and of a byte.
use simple_sip_rs.Prelude.{ℕ, ◌+◌, ◌*◌, ◌<◌, ◌≤◌, ◌≡◌, if◌then◌else◌, ◌==◌}
use Prim.Native.Nat.{max}
use simple_sip_rs.Prelude.Word.{is_neg, negate, complement}
use simple_sip_rs.Media.Pcmu.G711 as Mu
use simple_sip_rs.Media.Pcma.G711 as A
use simple_sip_rs.Media.Pcmu.Quality.{mu_law_restored, mu_law_quality}
use simple_sip_rs.Media.Pcma.Quality.{a_law_restored, a_law_quality}

-- Mu-law and A-law: let y be a sample, or its complement if it is negative. The sample comes back
-- as what y comes back as, or as the opposite of it if the sample is negative; and y comes back
-- with an error of at most (y + 132) / 32 with mu-law and max(y, 256) / 32 with A-law.
pub g711_quality :
    (x : ℕ)
    → x < 0x10000
    → let y = if is_neg x then complement x else x in
      let mu = Mu.decode (Mu.encode y) in
      let a = A.decode (A.encode y) in
      ((Mu.decode (Mu.encode x) ≡ (if is_neg x then negate mu else mu))
        × (32 * mu ≤ 33 * y + 132)
        × (31 * y ≤ 32 * mu + 132))
      × ((A.decode (A.encode x) ≡ (if is_neg x then negate a else a))
          × (32 * a ≤ 32 * y + max y 256)
          × (32 * y ≤ 32 * a + max y 256))
g711_quality x h = (mu_law_quality x h, a_law_quality x h)

-- Encoding the sample that a byte stands for gives the byte back: every byte with A-law, and with
-- mu-law all but 0x7f, which gives 0xff.
pub g711_restored :
    (y : ℕ)
    → y < 256
    → (Mu.encode (Mu.decode y) ≡ (if y == 0x7f then 0xff else y)) × (A.encode (A.decode y) ≡ y)
g711_restored y h = (mu_law_restored y h, a_law_restored y h)
