-- ===== src/Strmem/Tests.antt =====
-- Runs of `app_power_of_2`, and the theorems on it at concrete arguments.
use Prim.Native.Nat.{◌^◌, ◌+◌}
use vfdd.Prelude.{◌+◌, ◌^◌, ◌≡◌, refl, none, some, arith}
use vfdd.Strmem.{power_loop, app_power_of_2, app_power_of_2-hangs}

power_of_5 : app_power_of_2 5 ≡ some 8
unfolding app_power_of_2 power_loop
power_of_5 = refl

app_power_of_2-hangs_example : power_loop 40 1 (2 ^ 31 + 1) ≡ none
app_power_of_2-hangs_example = app_power_of_2-hangs (2 ^ 31 + 1) (omega arith) 40
