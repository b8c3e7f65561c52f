-- ===== src/Registrar/Handoff.antt =====
-- contracts/registrar/src/lib.rs, contracts/hos-wallet/src/lib.rs: whether a wallet accepts the
-- arguments with which the registrar mints it.
use tla_contracts.Prelude.{
  ℕ, ◌≡◌, ◌≢◌, ◌≤◌, ◌<◌, ◌↔◌, Option, some, [], ◌∷◌, ◌++◌, ok, IsOk, Result-cases, true, false,
  arith, Option-cases, inl, inr,
}
use tla_contracts.Prelude.Codes
use tla_contracts.Near.{AccountId, Bytes, Env}
use tla_contracts.Wallet.Types.{Upstream, WalletInit, min_timeout_secs, max_timeout_secs}
use tla_contracts.Wallet.Init.{hos_init, is_direct_subaccount}
use tla_contracts.Wallet.Naming.{is_direct_subaccount_iff}
use tla_contracts.Registrar.Types.{Registrar, Effect, Promise, Callback, Outcome}
use tla_contracts.Registrar.Mint.{create_sub_account}

-- The receipt of `hos_init` on the minted account, at a later time.
abbrev pub init_env : Env → AccountId → ℕ → Env
init_env env account later = record env {
  current_account_id = account;
  predecessor_account_id = env.current_account_id;
  block_timestamp = later;
  attached_deposit = 0;
}

-- What the registrar leaves to its configuration and its caller.
abbrev pub FitsWallet : Registrar → AccountId → AccountId → ℕ → ℕ → Type 0
FitsWallet r account owner until later =
    (later < until)
    × (min_timeout_secs ≤ r.wallet_timeout_secs)
    × (r.wallet_timeout_secs ≤ max_timeout_secs)
    × (r.hos_extension ≢ account)
    × (owner ≢ r.hos_extension)
    × (r.registry ≢ account)

-- What a mint that is sent has passed.
abbrev IsSent : (Bytes → Option AccountId) → Env → Bytes → AccountId → WalletInit → Type 0
IsSent parse env name account config =
    (parse (name ++ (b'.' ∷ env.as_str env.current_account_id)) ≡ some account)
    × (name ≢ [])
    × (Codes.has_code name b'.' ≡ false)
    × (config.payout_account ≢ account)
    × (config.owner_account ≢ account)

-- An account id that is parsed from a text shows that text.
module _ (up : Upstream) (parse : Bytes → Option AccountId) (env : Env)
    (parse-as_str : (text : Bytes) (id : AccountId) → parse text ≡ some id → env.as_str id ≡ text)
    (name : Bytes) (owner payout : AccountId) (until : ℕ) (r : Registrar) (done : Outcome)
    (account : AccountId) (funding : ℕ) (impl : AccountId) (config : WalletInit)
    (chained : Callback)
    (created : create_sub_account parse env name owner payout until r ≡ ok done)
    (sent : done.effects
      ≡ Effect.send (Promise.mint account funding impl config) chained ∷ []) where
  create_sub_account-IsSent :
      IsSent parse env name account config
      × (config ≡ record {
        owner_account = owner;
        authority = r.hos_extension;
        collection_id = r.registry;
        payout_account = payout;
        lease_until_ns = until;
        timeout_secs = r.wallet_timeout_secs;
      })
  unfolding create_sub_account
  create_sub_account-IsSent =
      elim (Option-cases (parse (name ++ (b'.' ∷ env.as_str env.current_account_id)))) [
        | inl e ↦ absurd (ground (arith, e))
        | inr (id, e) ↦ ground (arith, e)
      ]

  mint-is_direct_subaccount :
      (later : ℕ)
      → is_direct_subaccount (init_env env account later) account env.current_account_id ≡ true
  mint-is_direct_subaccount later =
      let s = create_sub_account-IsSent.0 in
      (is_direct_subaccount_iff (init_env env account later) account env.current_account_id).1 (
        name,
        (parse-as_str (name ++ (b'.' ∷ env.as_str env.current_account_id)) account s.0, s.1, s.2),
      )

  -- The wallet that the registrar mints accepts its `hos_init` exactly if the lease still runs, the
  -- registrar's timeout is between 60 seconds and 30 days, neither the extension nor the registry is
  -- the minted account, and the owner is not the extension; its name, payout account and the rest of
  -- what `hos_init` checks are right whenever the mint was sent. An account id that is parsed from a
  -- text is assumed to show that text.
  pub create_sub_account-hos_init :
      (later : ℕ)
      → IsOk (hos_init up (init_env env account later) config)
        ↔ FitsWallet r account owner until later
  unfolding hos_init
  create_sub_account-hos_init later =
      let s = create_sub_account-IsSent in
      (
        λ h. ground (arith, s, h),
        λ h. elim (Result-cases (hos_init up (init_env env account later) config)) [
          | inl k ↦ k
          | inr (x, k) ↦ absurd (ground (arith, s, h, k, mint-is_direct_subaccount later))
        ],
      )
