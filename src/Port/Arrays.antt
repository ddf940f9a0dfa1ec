-- ===== src/Port/Arrays.antt =====
-- The array functions of arch/ia32/ioport.c item by item.
use rjk.Base.{ℕ, zero, suc, ◌^◌, ◌<◌, ◌≡◌, refl, arith, length, All}
use rjk.Port.{Bus, rep_in, kioport_in_kuint8, kioport_in_kuint8_array}

rep_lem :
    {S : Type 0} (input : S → ℕ × S) (n : ℕ) (s : S)
    → ((t : S) → (input t).0 < 2 ^ 8)
    → (length (rep_in input n s).0 ≡ n) × All (λ v. v < 2 ^ 8) (rep_in input n s).0
unfolding rep_in
rep_lem input zero s small = (refl, tt)
rep_lem input (suc n) s small =
    let rest = rep_lem input n (input s).1 small in (omega (arith, rest.0), (small s, rest.1))

-- kioport_in_kuint8_array stores exactly as many items as asked for, and each is a byte, whatever the
-- device does.
pub in_array_lem :
    {S : Type 0} (bus : Bus S) (port n : ℕ) (s : S)
    → (length (kioport_in_kuint8_array bus port n s).0 ≡ n)
      × All (λ v. v < 2 ^ 8) (kioport_in_kuint8_array bus port n s).0
unfolding kioport_in_kuint8_array kioport_in_kuint8
in_array_lem bus port n s = rep_lem (kioport_in_kuint8 bus port) n s (λ t. omega arith)
