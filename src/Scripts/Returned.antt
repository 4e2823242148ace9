-- ===== src/Scripts/Returned.antt =====
-- What the return value of a script asks of the manager.
use cloudbase_init.Base.{ℕ, ◌≡◌, ◌↔◌, ◌⊎◌, Bool, true, Option, none, some, arith}
use cloudbase_init.Base.Int.{ℤ, pos, negsuc}
use cloudbase_init.Plugins.{plugin_execution_done, plugin_execute_on_next_boot}
use cloudbase_init.Scripts.{get_plugin_return_value}

-- The meaning of `out` as the answer for the value `r`.
pub record Means (r : Option ℤ) (out : ℕ × Bool) : Type 0 where
  pub reboot : (out.1 ≡ true) ↔ ((r ≡ some (pos 1001)) ⊎ (r ≡ some (pos 1003)))
  pub later :
      (out.0 ≡ plugin_execute_on_next_boot) ↔ ((r ≡ some (pos 1002)) ⊎ (r ≡ some (pos 1003)))
  pub status : (out.0 ≡ plugin_execution_done) ⊎ (out.0 ≡ plugin_execute_on_next_boot)

-- Only 1001 and 1003 ask for a reboot and only 1002 and 1003 for another run at the next boot; any
-- other value, and any that is no integer, counts as done.
pub get_plugin_return_value-Means : (r : Option ℤ) → Means r (get_plugin_return_value r)
unfolding get_plugin_return_value
get_plugin_return_value-Means none = record {
  reboot = ground arith;
  later = ground arith;
  status = ground arith;
}
get_plugin_return_value-Means (some (negsuc n)) = record {
  reboot = ground arith;
  later = ground arith;
  status = ground arith;
}
get_plugin_return_value-Means (some (pos n)) = record {
  reboot = ground arith;
  later = ground arith;
  status = ground arith;
}
