-- ===== src/Extension/Rotation.antt =====
-- contracts/hos-extension/src/lib.rs: moving a leased account to another owner, and the reset of its
-- recovery policy that has to follow.
use tla_contracts.Prelude.{
  ℕ, Bool, true, false, Option, some, [], ◌∷◌, not, ◌&&◌, is_some, is_none, if◌then◌else◌, Result,
  ok, require, ◌>>◌,
}
use tla_contracts.Prelude.IdSet
use tla_contracts.Near.{AccountId, Env}
use tla_contracts.HosCommon.{RotationCause, parks, needs_holder, is_re_rent}
use tla_contracts.Extension.Types.{
  HosExtension, WalletCall, Promise, Callback, Event, Effect, Error, Outcome,
  extension_call_deposit, assert_registry, assert_not_paused, assert_one_yocto,
}

-- `matches!(result, Ok(true))` of a callback's result, which is `none` where the promise failed.
abbrev pub is_ok_true : Option Bool → Bool
is_ok_true (some true) = true
is_ok_true _ = false

-- The call of the recovery contract, with its callback.
abbrev pub reset_recovery : HosExtension → AccountId → Effect
reset_recovery x wallet =
    Effect.send (Promise.on_wallet_transferred x.recovery wallet)
      (Callback.after_recovery_reset wallet)

module _ (env : Env) where
  -- The conditions on the cause in `force_transfer`.
  abbrev pub assert_transfer :
      Option AccountId → RotationCause → Option AccountId → Result Error (Unit {0})
  assert_transfer new_owner cause asked_by = do
    require (not (is_re_rent cause)) Error.re_rent_needs_own_call
    require (not (parks cause && is_some new_owner)) Error.park_takes_no_owner
    require (not (not (parks cause) && is_none new_owner)) Error.transfer_needs_owner
    require (not (needs_holder cause && is_none asked_by)) Error.transfer_needs_holder

  unfoldable pub force_transfer :
      AccountId
      → Option AccountId
      → RotationCause
      → Option AccountId
      → HosExtension
      → Result Error Outcome
  force_transfer wallet new_owner cause asked_by x = do
    assert_registry env x
    assert_not_paused env x
    assert_transfer new_owner cause asked_by
    ok (record {
      state = x;
      effects =
          Effect.emit (
            Event.force_transfer_requested wallet new_owner (parks cause)
              env.predecessor_account_id)
          ∷ Effect.send
              (Promise.call_wallet wallet (WalletCall.transfer_ownership new_owner cause asked_by)
                extension_call_deposit)
              (Callback.after_force_swap wallet)
          ∷ [];
    })

  unfoldable pub re_rent :
      AccountId → AccountId → AccountId → ℕ → HosExtension → Result Error Outcome
  re_rent wallet new_owner payout_account lease_until_ns x = do
    assert_one_yocto env
    assert_registry env x
    assert_not_paused env x
    ok (record {
      state = x;
      effects =
          Effect.emit (
            Event.force_transfer_requested wallet (some new_owner) false env.predecessor_account_id)
          ∷ Effect.send
              (Promise.call_wallet wallet
                (WalletCall.re_rent new_owner payout_account lease_until_ns) extension_call_deposit)
              (Callback.after_re_rent wallet)
          ∷ [];
    })

  -- What the two callbacks of a rotation have in common.
  abbrev pub settle_transfer : AccountId → Bool → HosExtension → Bool × Outcome
  settle_transfer wallet transferred x =
      if transferred
      then (
        true,
        record {
          state = x;
          effects =
              Effect.emit (Event.force_transfer_completed wallet) ∷ reset_recovery x wallet ∷ [];
        },
      )
      else (
        false,
        record { state = x; effects = Effect.emit (Event.force_transfer_voided wallet) ∷ [] },
      )

  unfoldable pub after_re_rent : AccountId → Option Bool → HosExtension → Bool × Outcome
  after_re_rent wallet swapped x = settle_transfer wallet (is_ok_true swapped) x

  unfoldable pub after_force_swap : AccountId → HosExtension → Bool × Outcome
  after_force_swap wallet x = settle_transfer wallet env.promise_success x

  -- `reset`: the value of the recovery contract's call.
  unfoldable pub after_recovery_reset : AccountId → Option Bool → HosExtension → Outcome
  after_recovery_reset wallet reset x =
      if is_ok_true reset
      then record {
        state = record x { recovery_reset_pending = IdSet.remove x.recovery_reset_pending wallet };
        effects = [];
      }
      else record {
        state = record x { recovery_reset_pending = IdSet.insert x.recovery_reset_pending wallet };
        effects = Effect.emit (Event.recovery_reset_pending wallet) ∷ [];
      }

  -- Open to anyone.
  unfoldable pub retry_recovery_reset : AccountId → HosExtension → Result Error Outcome
  retry_recovery_reset wallet x = do
    require (IdSet.contains x.recovery_reset_pending wallet) Error.no_pending_reset
    ok (record { state = x; effects = reset_recovery x wallet ∷ [] })
