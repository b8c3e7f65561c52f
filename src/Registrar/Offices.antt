-- ===== src/Registrar/Offices.antt =====
-- contracts/registrar/src/lib.rs: the council, as an office with a two-step succession.
use tla_contracts.Prelude.{
  ℕ, ◌*◌, ◌^◌, ◌≡◌, ◌≤◌, ◌++◌, some, Option-cases, Option, List, [], ◌∷◌, Result-cases, inl, inr,
  refl, arith, ok, u32_max,
}
use tla_contracts.Near.{AccountId, Bytes, Env}
use tla_contracts.Succession.{Office, Moves, stay, go, Shape, Move-Shape}
use tla_contracts.Registrar.Types.{
  Registrar, RegistrarConfig, Effect, Promise, Callback, Outcome, account_storage_floor,
  upgrade_delay_ns,
}
use tla_contracts.Registrar.Mint.{new, create_sub_account, on_minted}
use tla_contracts.Registrar.Council.{
  set_min_balance, approve_upgrade, approve_council_rotation, cancel_council_rotation,
  commit_council_rotation, upgrade_self, seal, after_seal, migrate,
}
use tla_contracts.Registrar.Calls
use tla_contracts.Registrar.Calls.{Ensures}

abbrev pub council_office : Registrar → Office
council_office r = record {
  holder = r.council;
  nominee = r.pending_council;
  named_at = r.pending_council_at;
}

-- The parties of the registrar, and its floor and epoch, from one state to another.
abbrev IsServing : Registrar → Registrar → Type 0
IsServing r s =
    (s.registry ≡ r.registry)
    × (s.wallet_impl ≡ r.wallet_impl)
    × (s.hos_extension ≡ r.hos_extension)
    × (s.wallet_timeout_secs ≡ r.wallet_timeout_secs)
    × (account_storage_floor ≤ s.min_balance)
    × (s.config_epoch ≤ u32_max)

module _ (parse : Bytes → Option AccountId) where
  -- What one call keeps: the council is an office, whom the registrar serves does not change, and the
  -- minimum balance covers the storage of an account.
  abbrev Keeps : Env → Registrar → Registrar → Type 0
  Keeps env r s =
      Shape upgrade_delay_ns r.council env (council_office r) (council_office s)
      × (s.registry ≡ r.registry)
      × (s.wallet_impl ≡ r.wallet_impl)
      × (s.hos_extension ≡ r.hos_extension)
      × (s.wallet_timeout_secs ≡ r.wallet_timeout_secs)
      × (r.config_epoch ≤ u32_max → s.config_epoch ≤ u32_max)
      × (account_storage_floor ≤ r.min_balance → account_storage_floor ≤ s.min_balance)

  run_call-Keeps :
      (env : Env) (call : Calls.Call) (r : Registrar)
      → Ensures (Keeps env r) (Calls.run_call parse env call r)
  unfolding Calls.run_call create_sub_account on_minted set_min_balance approve_upgrade
      approve_council_rotation cancel_council_rotation commit_council_rotation upgrade_self seal
      after_seal migrate
  run_call-Keeps env (Calls.fund min_balance) r = ground arith
  run_call-Keeps env call r = ground arith

  receive-Keeps :
      (env : Env) (call : Calls.Call) (r : Registrar)
      → Keeps env r (Calls.receive parse r (env, call))
  unfolding Calls.receive
  receive-Keeps env call r = elim (Result-cases (Calls.run_call parse env call r)) [
    | inl (done, e) ↦ rw (e, Calls.receive) (rw e at (run_call-Keeps env call r))
    | inr (y, e) ↦
        rw (e, Calls.receive) (inl refl, refl, refl, refl, refl, λ h. omega arith, λ h. h)
  ]

  -- Who appoints when each receipt comes, which is the council of the time, and the receipt's
  -- environment.
  unfoldable pub calls_of : Registrar → List Calls.Receipt → List (AccountId × Env)
  calls_of r [] = []
  calls_of r ((env, call) ∷ rs) = (r.council, env) ∷ calls_of (Calls.receive parse r (env, call)) rs

  -- Whatever receipts reach the registrar, its council is an office with a succession in two steps: with
  -- each receipt, only its caller can act, and only if it is the council that the registrar has then,
  -- when it names another account that is not the registrar, or withdraws it, or if it is the account
  -- that was named, which takes the office no sooner than 48 hours after it was named.
  pub receive_all-council :
      (rs : List Calls.Receipt) (r : Registrar)
      → Moves upgrade_delay_ns
          (calls_of r rs)
          (council_office r)
          (council_office (Calls.receive_all parse r rs))
  unfolding Calls.receive_all calls_of
  receive_all-council [] r = stay
  receive_all-council ((env, call) ∷ rs) r =
      let next = Calls.receive parse r (env, call) in
      go
        (Move-Shape upgrade_delay_ns r.council env (council_office r) (council_office next)
          (receive-Keeps env call r).0)
        (receive_all-council rs next)

  receive_all-IsServing :
      (rs : List Calls.Receipt) (r s : Registrar)
      → IsServing r s
      → IsServing r (Calls.receive_all parse s rs)
  unfolding Calls.receive_all
  receive_all-IsServing [] r s k = k
  receive_all-IsServing ((env, call) ∷ rs) r s k =
      receive_all-IsServing rs r (Calls.receive parse s (env, call))
        (ground (arith, receive-Keeps env call s))

  new-IsServing :
      (env : Env) (config : RegistrarConfig) (r : Registrar) (rs : List Calls.Receipt)
      → new env config ≡ ok r
      → IsServing r (Calls.receive_all parse r rs)
  unfolding new
  new-IsServing env config r rs e = receive_all-IsServing rs r r (ground arith)

  -- What a call mints, and what it has checked of its caller and its deposit.
  create_sub_account-mint :
      (env : Env) (name : Bytes) (owner payout : AccountId) (until : ℕ) (r : Registrar)
      (done : Outcome)
      → create_sub_account parse env name owner payout until r ≡ ok done
      → (env.predecessor_account_id ≡ r.registry)
        × (r.min_balance ≤ env.attached_deposit)
        × (account : AccountId) × (parse (name ++ (b'.' ∷ env.as_str env.current_account_id))
            ≡ some account)
        × (done.effects
            ≡ Effect.send
                (Promise.mint account env.attached_deposit r.wallet_impl (record {
                  owner_account = owner;
                  authority = r.hos_extension;
                  collection_id = r.registry;
                  payout_account = payout;
                  lease_until_ns = until;
                  timeout_secs = r.wallet_timeout_secs;
                }))
                (Callback.on_minted account owner env.attached_deposit)
              ∷ [])
  unfolding create_sub_account
  create_sub_account-mint env name owner payout until r done h =
      elim (Option-cases (parse (name ++ (b'.' ∷ env.as_str env.current_account_id)))) [
        | inl e ↦ absurd (ground (arith, e, h))
        | inr (account, e) ↦
            (ground (arith, e, h), ground (arith, e, h), account, e, ground (arith, e, h))
      ]

  -- A registrar that its set-up has accepted mints, whatever receipts have reached it since, only for the
  -- registry of its configuration, only with at least 7 millinear, and only in this way: the account
  -- that the name gives below the registrar's own, with the whole deposit, the implementation of the
  -- configuration, and a wallet that has the configuration's extension as its authority, its registry as
  -- its collection and its timeout, with the owner, the payout account and the end of the lease that were
  -- asked for.
  pub new-create_sub_account :
      (start env : Env) (config : RegistrarConfig) (r : Registrar) (rs : List Calls.Receipt)
      (name : Bytes) (owner payout : AccountId) (until : ℕ) (done : Outcome)
      → new start config ≡ ok r
      → create_sub_account parse env name owner payout until (Calls.receive_all parse r rs)
        ≡ ok done
      → (env.predecessor_account_id ≡ config.registry)
        × (7 * 10 ^ 21 ≤ env.attached_deposit)
        × (account : AccountId) × (parse (name ++ (b'.' ∷ env.as_str env.current_account_id))
            ≡ some account)
        × (done.effects
            ≡ Effect.send
                (Promise.mint account env.attached_deposit config.wallet_impl (record {
                  owner_account = owner;
                  authority = config.hos_extension;
                  collection_id = config.registry;
                  payout_account = payout;
                  lease_until_ns = until;
                  timeout_secs = config.wallet_timeout_secs;
                }))
                (Callback.on_minted account owner env.attached_deposit)
              ∷ [])
  unfolding new
  new-create_sub_account start env config r rs name owner payout until done e h =
      let late = Calls.receive_all parse r rs in
      let serving = new-IsServing start config r rs e in
      let m = create_sub_account-mint env name owner payout until late done h in
      (
        ground (arith, e, serving, m.0),
        ground (arith, serving, m.1),
        m.2,
        m.3,
        ground (arith, e, serving, m.4),
      )
