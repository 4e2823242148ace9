-- ===== src/Tests/Hostname.antt =====
-- Host names at concrete inputs.
use cloudbase_init.Base.{ℕ, ◌≤◌, ◌≡◌, refl, true, false}
use cloudbase_init.Base.Result.{ok}
use cloudbase_init.Action.{pure, ◌>>=◌}
use cloudbase_init.Utils.Hostname.{length, new_hostname, set_hostname}
use cloudbase_init.Utils.Hostname.Limits.{has_dot, ends_with_dash, new_hostname-limits}

truncated : new_hostname true "a-very-long-na-me.example.com" ≡ "a-very-long-na0"
unfolding new_hostname
truncated = refl

already_set :
    set_hostname {W = ℕ} "Host" (λ name w. (ok true, w)) true "host.example.com" 0
    ≡ (ok ("host", false), 0)
unfolding set_hostname pure ◌>>=◌
already_set = refl

long_name_limits :
    (has_dot (new_hostname true "a-very-long-na-me.example.com") ≡ false)
    × (ends_with_dash (new_hostname true "a-very-long-na-me.example.com") ≡ false)
    × (true ≡ true → length (new_hostname true "a-very-long-na-me.example.com") ≤ 15)
long_name_limits = new_hostname-limits true "a-very-long-na-me.example.com"
