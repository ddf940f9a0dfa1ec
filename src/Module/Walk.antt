-- ===== src/Module/Walk.antt =====
-- The use that kmodule_get of arch/ia32/module.c is made for: each answer is the next argument.
use rjk.Base.{
  ℕ, zero, suc, ◌+◌, ◌^◌, ◌<◌, ◌≡◌, ap, ◌∙◌, false, Option, none, some, List, [], ◌∷◌, ltb, sub32,
  arith,
}
use rjk.Module.{Info, kmodule_get}

abbrev pub place : Info → ℕ → ℕ × ℕ
place info i = ((info.mods i).mod_start, sub32 (info.mods i).mod_end (info.mods i).mod_start)

-- The places of n modules from the i-th on.
abbrev pub places : Info → (i n : ℕ) → List (ℕ × ℕ)
places info i zero = []
places info i (suc n) = place info i ∷ places info (i + 1) n

abbrev pub cons_to : ℕ × ℕ → Option (List (ℕ × ℕ)) → Option (List (ℕ × ℕ))
cons_to p none = none
cons_to p (some ps) = some (p ∷ ps)

-- Calls from an argument on until one answers 0: what they yield; `none` if more than `calls` are needed.
unfoldable pub walk : (calls : ℕ) → Info → ℕ → Option (List (ℕ × ℕ))
walk zero info value = none
walk (suc calls) info value =
    let rest = walk calls info (kmodule_get info value).0 in
    elim (kmodule_get info value).1 [ none ↦ some [] | some p ↦ cons_to p rest ]

get_inside :
    (info : Info) (i : ℕ)
    → i < info.mods_count
    → info.mods_count < 2 ^ 32
    → kmodule_get info i ≡ (i + 1, some (place info i))
unfolding kmodule_get
get_inside info i h k = ground arith

walk_step :
    (calls : ℕ) (info : Info) (i : ℕ)
    → i < info.mods_count
    → info.mods_count < 2 ^ 32
    → walk (suc calls) info i ≡ cons_to (place info i) (walk calls info (i + 1))
unfolding walk
walk_step calls info i h k =
    let got = get_inside info i h k in
    rw (walk, got)
      (ap (λ (t : ℕ × Option (ℕ × ℕ)). cons_to (place info i) (walk calls info t.0)) got)

walk_from :
    (info : Info) (n i : ℕ)
    → i + n ≡ info.mods_count
    → info.mods_count < 2 ^ 32
    → walk (suc n) info i ≡ some (places info i n)
unfolding walk kmodule_get
walk_from info zero i e h =
    let out : ltb i info.mods_count ≡ false = ground arith in rw (walk, kmodule_get, out)
walk_from info (suc n) i e h =
    walk_step (suc n) info i (omega arith) h
    ∙ ap (cons_to (place info i)) (walk_from info n (i + 1) (omega arith) h)

-- Started with 0, kmodule_get yields the place and length of every module, each once and in order, and
-- the call after that ends the walk.
pub walk_lem :
    (info : Info)
    → info.mods_count < 2 ^ 32
    → walk (suc info.mods_count) info 0 ≡ some (places info 0 info.mods_count)
walk_lem info h = walk_from info info.mods_count 0 (omega arith) h
