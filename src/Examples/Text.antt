-- ===== src/Examples/Text.antt =====
-- Runs of the text functions.
use signalg.Base.{◌≡◌, refl, true, false, [], ◌∷◌}
use signalg.Text.{trim_space, utf8_valid}

trim_runs :
    trim_space (0x20 ∷ 0xc2 ∷ 0xa0 ∷ b'a' ∷ 0x20 ∷ b'b' ∷ 0xe2 ∷ 0x80 ∷ 0xa8 ∷ 0x0a ∷ [])
    ≡ b'a' ∷ 0x20 ∷ b'b' ∷ []
unfolding trim_space
trim_runs = refl

utf8_runs :
    (utf8_valid (0xe2 ∷ 0x82 ∷ 0xac ∷ []) ≡ true) × (utf8_valid (0xed ∷ 0xa0 ∷ 0x80 ∷ []) ≡ false)
unfolding utf8_valid
utf8_runs = (refl, refl)
