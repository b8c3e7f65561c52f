-- ===== src/Wallet/Invariant/Grants.antt =====
-- contracts/hos-wallet/src/lib.rs: granting keeps the wallet valid.
use tla_contracts.Prelude.{ℕ, List, arith}
use tla_contracts.Prelude.IdMap
use tla_contracts.Prelude.IdMap.{IdMap}
use tla_contracts.Near.{AccountId, Env}
use tla_contracts.Wallet.Types.{TenantWallet, TokenAllowance, ItemAllowance}
use tla_contracts.Wallet.Invariant.{IsValid, Ensures}
use tla_contracts.Wallet.Grants.{hos_grant_spend}

pub grant_spend-IsValid :
    (self : AccountId) (w : TenantWallet) (v : IsValid self w) (env : Env) (delegate : AccountId)
    (receivers : List AccountId) (budget : ℕ) (tokens : List TokenAllowance)
    (items : List ItemAllowance) (expires_at : ℕ)
    → Ensures
        (IsValid self)
        (hos_grant_spend env delegate receivers budget tokens items expires_at w)
unfolding hos_grant_spend
grant_spend-IsValid self w v env delegate receivers budget tokens items expires_at =
    grind (arith, IdMap.get-insert)
