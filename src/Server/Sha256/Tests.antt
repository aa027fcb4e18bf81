-- ===== src/Server/Sha256/Tests.antt =====
-- The digests of FIPS 180-4 for "" and "abc".
use secd.Base.{◌≡◌, refl, []}
use secd.Base.Text.{codes}
use secd.Core.Hex.{to_hex, hex_digit}
use secd.Server.Sha256.{sha256}

sha256_tests :
    (to_hex (sha256 (codes "abc"))
      ≡ codes "ba7816bf8f01cfea414140de5dae2223b00361a396177a9cb410ff61f20015ad")
    × (to_hex (sha256 [])
        ≡ codes "e3b0c44298fc1c149afbf4c8996fb92427ae41e4649b934ca495991b7852b855")
unfolding sha256 to_hex hex_digit
sha256_tests = (refl, refl)
