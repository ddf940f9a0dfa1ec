-- ===== src/Port/Examples.antt =====
-- A device that counts its reads, through arch/ia32/ioport.c.
use rjk.Base.{ℕ, ◌+◌, ◌<◌, ◌^◌, ◌≡◌, refl, [], ◌∷◌, length, All}
use rjk.Port.{Bus, rep_in, kioport_in_kuint8, kioport_in_kuint8_array}
use rjk.Port.Arrays.{in_array_lem}

abbrev counter : Bus ℕ
counter = record { read = λ bytes port s. (s, s + 1); write = λ bytes port value s. value }

in_array_lem_test :
    (length (kioport_in_kuint8_array counter 0x71 3 254).0 ≡ 3)
    × All (λ v. v < 2 ^ 8) (kioport_in_kuint8_array counter 0x71 3 254).0
in_array_lem_test = in_array_lem counter 0x71 3 254

wrap_test : (kioport_in_kuint8_array counter 0x71 3 254).0 ≡ 254 ∷ 255 ∷ 0 ∷ []
unfolding kioport_in_kuint8_array kioport_in_kuint8 rep_in
wrap_test = refl
