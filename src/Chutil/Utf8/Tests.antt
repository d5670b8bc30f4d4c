-- ===== src/Chutil/Utf8/Tests.antt =====
-- Instances of the theorems on code points.
use chlibs.Common.{◌≡◌, refl, some, [], ◌∷◌, ◌++◌, arith}
use chlibs.Chutil.Utf8.{unicode_to_utf8, unicode_from_utf8}
use chlibs.Chutil.Utf8.RoundTrip.{unicode_from_utf8-to_utf8}

-- the euro sign
euro_bytes : unicode_to_utf8 0x20AC ≡ 0xE2 ∷ 0x82 ∷ 0xAC ∷ []
unfolding unicode_to_utf8
euro_bytes = refl

unicode_from_utf8-to_utf8_example :
    unicode_from_utf8 (unicode_to_utf8 0x20AC ++ (7 ∷ [])) ≡ some (0x20AC, 7 ∷ [])
unicode_from_utf8-to_utf8_example = unicode_from_utf8-to_utf8 0x20AC (7 ∷ []) (omega arith)
