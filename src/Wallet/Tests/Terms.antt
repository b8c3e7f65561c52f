-- ===== src/Wallet/Tests/Terms.antt =====
-- The theorems about rotations, freezes, the lease, the pin and the set-up, at inputs where their
-- hypotheses hold.
use tla_contracts.Prelude.{
  ℕ, ◌+◌, ◌*◌, ◌^◌, ◌≡◌, ◌≢◌, ◌≤◌, ◌⊎◌, ◌↔◌, refl, true, Option, none, some, [], ok, arith, sat_add,
  u64_max, ltb, List, ◌∷◌, if◌then◌else◌,
}
use tla_contracts.Prelude.IdSet
use tla_contracts.Near.{AccountId, CryptoHash, Env, day_ns}
use tla_contracts.HosCommon.{RotationCause, min_lease_retract_notice_ns, max_authority_hold_ns}
use tla_contracts.Wallet.Types.{
  TenantWallet, FreezeState, Outcome, WalletInit, ItemStatus, impl_pin_delay_ns,
}
use tla_contracts.Wallet.Guards.{
  effective_frozen, check_lockout, assert_renter_active, blocking_condition,
}
use tla_contracts.Wallet.Execute.{w_execute_extension}
use tla_contracts.Wallet.Sweep.{sweep_to, sweep_amount}
use tla_contracts.Wallet.Rotation.{hos_transfer_ownership, apply_rotation, open_gate, rotate}
use tla_contracts.Wallet.Freeze.{hos_freeze}
use tla_contracts.Wallet.Lease.{hos_set_payout_account}
use tla_contracts.Wallet.Impl.{hos_approve_impl, hos_pin_impl, hos_on_pinned}
use tla_contracts.Wallet.Calls
use tla_contracts.Wallet.Custody.{
  Gate, Rotated, Window, transfer_ownership-Gate, transfer_ownership-Rotated,
}
use tla_contracts.Wallet.Revert.{revert-transfer_ownership}
use tla_contracts.Wallet.Tenure.{receive_all-notice}
use tla_contracts.Wallet.Holds.{own_freeze_stands, authority_freeze_gap, authority_freeze_lapses}
use tla_contracts.Wallet.Pinning.{AnswersOnly, WasApproved, bound, pin_impl-approved}
use tla_contracts.Wallet.Tests.{receipts, env_at, upstream, leased, payment, result, leased-IsValid}

abbrev sold : Outcome
sold = result (hos_transfer_ownership (env_at 10 200) (some 60) RotationCause.sale (some 20) leased)

transfer_ownership-Gate_example :
    (◌≡◌ {A = ℕ} 10 10) × Gate (env_at 10 200) leased (some 60) (some 20) RotationCause.sale
unfolding hos_transfer_ownership apply_rotation open_gate rotate sweep_to sweep_amount check_lockout
    IdSet.contains IdSet.insert IdSet.retain_eq
transfer_ownership-Gate_example =
    transfer_ownership-Gate (env_at 10 200) (some 60) RotationCause.sale (some 20) leased sold refl

transfer_ownership-Rotated_example :
    Rotated (env_at 10 200) leased (some 60) RotationCause.sale sold
    × Window (env_at 10 200) leased RotationCause.sale sold.state
unfolding hos_transfer_ownership apply_rotation open_gate rotate sweep_to sweep_amount check_lockout
    IdSet.contains IdSet.insert IdSet.retain_eq
transfer_ownership-Rotated_example =
    transfer_ownership-Rotated (env_at 10 200) (some 60) (some 20) leased sold RotationCause.sale
      refl

revert-transfer_ownership_example :
    (back : Outcome) × (hos_transfer_ownership
        (env_at 10 300)
        (some 20)
        RotationCause.revert
        none
        sold.state
      ≡ ok back)
    × (back.state.owner ≡ 20)
    × (back.state.payout_account ≡ 20)
    × (IdSet.contains back.state.wallet.extensions 20 ≡ true)
    × ((e : Env) (t a : Option AccountId) (x : Outcome)
        → hos_transfer_ownership e t RotationCause.revert a back.state ≢ ok x)
unfolding hos_transfer_ownership apply_rotation open_gate rotate sweep_to sweep_amount check_lockout
    IdSet.contains IdSet.insert IdSet.retain_eq
revert-transfer_ownership_example =
    revert-transfer_ownership 1 leased leased-IsValid (env_at 10 200) (env_at 10 300) (some 60)
      (some 20) RotationCause.sale sold refl refl
      (record { here = refl; caller = refl; yocto = refl }) (omega arith)

receive_all-notice_example :
    sat_add u64_max 100 min_lease_retract_notice_ns
    ≤ (Calls.receive_all upstream leased receipts).lease_until_ns
receive_all-notice_example =
    receive_all-notice upstream receipts 100 leased (omega arith) (omega arith)

-- The owner's freeze, and a payout change by the authority under it.
abbrev self_frozen : TenantWallet
self_frozen = record leased { frozen = FreezeState.self_frozen }

abbrev repaid : Outcome
repaid = result (hos_set_payout_account (env_at 10 100) 22 20 self_frozen)

own_freeze_stands_example :
    (repaid.state.frozen ≡ FreezeState.self_frozen)
    ⊎ (repaid.state.owner ≢ 20)
    ⊎ ((◌≡◌ {A = ℕ} 10 20) × (◌≢◌ {A = ℕ} 10 10))
unfolding Calls.run_call hos_set_payout_account
own_freeze_stands_example =
    own_freeze_stands upstream (env_at 10 100) (Calls.set_payout_account 22 20) self_frozen repaid
      refl refl

abbrev first_freeze : Env
first_freeze = env_at 10 (10 * day_ns)

abbrev second_freeze : Env
second_freeze = env_at 10 (30 * day_ns)

abbrev held : Outcome
held = result (hos_freeze first_freeze leased)

authority_freeze_gap_example : 10 * day_ns + 2 * max_authority_hold_ns ≤ 30 * day_ns
unfolding hos_freeze effective_frozen IdSet.contains Calls.receive_all
authority_freeze_gap_example =
    authority_freeze_gap upstream first_freeze second_freeze leased held
      (result (hos_freeze second_freeze held.state)) [] refl refl refl refl (omega arith)

authority_freeze_lapses_example :
    ((assert_renter_active (env_at 40 (11 * day_ns)) held.state ≡ ok tt)
      ↔ (10 * day_ns + max_authority_hold_ns ≤ 11 * day_ns))
    × (blocking_condition (env_at 40 (11 * day_ns)) held.state ≡ (
        if ltb (11 * day_ns) (10 * day_ns + max_authority_hold_ns)
        then some ItemStatus.frozen
        else none))
    × ((10 * day_ns + max_authority_hold_ns ≤ 11 * day_ns)
        ⊎ (w_execute_extension
              (env_at 40 (11 * day_ns))
              upstream
              (record { internal = []; external = payment ∷ [] })
              held.state
            ≢ ok held))
unfolding hos_freeze effective_frozen IdSet.contains
authority_freeze_lapses_example =
    authority_freeze_lapses upstream first_freeze (env_at 40 (11 * day_ns)) leased held held []
      payment [] refl refl (omega arith) refl (omega arith)

-- The authority approves code 77 on the eleventh day and pins it on the thirtieth.
abbrev unapproved : TenantWallet
unapproved = record leased { approved_impl = none }

abbrev approval : List Calls.Receipt
approval = (env_at 10 (11 * day_ns), Calls.approve_impl 77) ∷ []

abbrev approved : TenantWallet
approved = record leased { approved_impl = some 77; approved_impl_at = 11 * day_ns }

abbrev pinning : Outcome
pinning = result (hos_pin_impl second_freeze approved)

pin_impl-approved_example :
    (◌≡◌ {A = ℕ} 10 10)
    × (effective_frozen second_freeze approved ≡ FreezeState.unfrozen)
    × (pinning.state ≡ record approved { approved_impl = none; approved_impl_at = 0 })
    × (code : CryptoHash) × (t : ℕ) × WasApproved upstream code t unapproved approval
    × (sat_add u64_max t impl_pin_delay_ns ≤ 30 * day_ns)
    × (bound pinning.effects ≡ (code, t) ∷ [])
    × ((hos_on_pinned (env_at 1 (30 * day_ns)) code t leased).state
        ≡ record leased { approved_impl = some 77; approved_impl_at = 11 * day_ns })
unfolding hos_pin_impl effective_frozen hos_approve_impl Calls.receive_all Calls.receive AnswersOnly
pin_impl-approved_example =
    pin_impl-approved upstream second_freeze (env_at 1 (30 * day_ns)) unapproved leased approval
      pinning refl (tt, tt) refl refl

abbrev config : WalletInit
config = record {
  owner_account = 20;
  authority = 10;
  collection_id = 30;
  payout_account = 21;
  lease_until_ns = 10 ^ 18;
  timeout_secs = 3600;
}
