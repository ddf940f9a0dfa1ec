-- ===== src/Module/Examples.antt =====
-- Two modules, walked with arch/ia32/module.c.
use rjk.Base.{◌+◌, ◌*◌, ◌≡◌, some, [], ◌∷◌, arith}
use rjk.Module.{Info}
use rjk.Module.Walk.{walk, walk_lem}

abbrev info : Info
info = record {
  mods_count = 2;
  mods = λ i. record { mod_start = 4096 * i; mod_end = 4096 * i + 100 };
}

walk_lem_test : walk 3 info 0 ≡ some ((0, 100) ∷ (4096, 100) ∷ [])
walk_lem_test = walk_lem info (omega arith)
