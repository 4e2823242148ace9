-- ===== src/CommonPlugins/Ntp/Hosts.antt =====
-- When the option of the NTP servers is readable.
use cloudbase_init.Base.{
  ℕ, suc, ◌%◌, String, ◌≡◌, refl, ap, ◌∙◌, List, [], ◌∷◌, length, ◌==◌, nat_eq, arith,
}
use cloudbase_init.Base.Result.{Result, ok, raise, returns}
use cloudbase_init.Utils.Network.{inet_ntoa}
use cloudbase_init.CommonPlugins.Ntp.{chunks, cons_ok, all_ok, unpack_ntp_hosts}

-- The number of addresses in a list of bytes.
abbrev pub addresses : List ℕ → ℕ
addresses (a ∷ b ∷ c ∷ d ∷ rest) = suc (addresses rest)
addresses _ = 0

-- The names that were read are as many as the addresses; nothing is said of a raise.
abbrev pub Counts : Result (List String) → ℕ → Type 0
Counts (ok hosts) n = length hosts ≡ n
Counts (raise e) n = Unit

four : (n : ℕ) → n % 4 ≡ suc (suc (suc (suc n))) % 4
four n = omega arith

cons_ok-returns :
    (host : String) (r : Result (List String)) → returns (cons_ok (ok host) r) ≡ returns r
cons_ok-returns host (ok hosts) = refl
cons_ok-returns host (raise e) = refl

cons_ok-Counts :
    (host : String) (r : Result (List String)) (n : ℕ)
    → Counts r n
    → Counts (cons_ok (ok host) r) (suc n)
cons_ok-Counts host (ok hosts) n h = ap (λ k. suc k) h
cons_ok-Counts host (raise e) n h = tt

-- The option is readable exactly where its length is a multiple of four; there is a server then for
-- every four bytes.
pub unpack_ntp_hosts-returns :
    (ntp_option_data : List ℕ)
    → (returns (unpack_ntp_hosts ntp_option_data) ≡ (length ntp_option_data % 4 == 0))
      × Counts (unpack_ntp_hosts ntp_option_data) (addresses ntp_option_data)
unfolding unpack_ntp_hosts inet_ntoa
unpack_ntp_hosts-returns [] = (refl, refl)
unpack_ntp_hosts-returns (a ∷ []) = (refl, tt)
unpack_ntp_hosts-returns (a ∷ b ∷ []) = (refl, tt)
unpack_ntp_hosts-returns (a ∷ b ∷ c ∷ []) = (refl, tt)
unpack_ntp_hosts-returns (a ∷ b ∷ c ∷ d ∷ rest) =
    let (r, n) = unpack_ntp_hosts-returns rest in
    (
      cons_ok-returns _ (all_ok (chunks rest)) ∙ r ∙ ap (λ k. k == 0) (four (length rest)),
      cons_ok-Counts _ (all_ok (chunks rest)) (addresses rest) n,
    )
