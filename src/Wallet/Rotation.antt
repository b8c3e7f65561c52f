-- ===== src/Wallet/Rotation.antt =====
-- contracts/hos-wallet/src/lib.rs: the rotation of an account to another owner.
use tla_contracts.Prelude.{
  ℕ, Bool, true, false, not, ◌&&◌, Option, none, some, [], ◌∷◌, ◌++◌, ltb, leb, ◌!=◌, if◌then◌else◌,
  same_option, Result, ok, require, unwrap_or, ◌>>=◌, ◌>>◌, sat_add, u64_max,
}
use tla_contracts.Prelude.IdSet
use tla_contracts.Prelude.IdSet.{IdSet}
use tla_contracts.Near.{AccountId, Env}
use tla_contracts.HosCommon.{
  OperatingState, RotationCause, parks, repoints_payout, sweeps, needs_holder, needs_expiry,
  is_re_rent, is_recovery, is_revert,
}
use tla_contracts.Wallet.Types.{
  TenantWallet, FreezeState, Error, Event, Effect, Outcome, revert_window_ns,
}
use tla_contracts.Wallet.Guards.{
  Check, assert_one_yocto, effective_frozen, lease_expired, assert_authority, check_lockout,
  is_self_frozen,
}
use tla_contracts.Wallet.Sweep.{sweep_to}

module _ (env : Env) where
  -- A revert returns the account to where it came from, within the window, once.
  abbrev pub open_revert : Option AccountId → TenantWallet → Result Error TenantWallet
  open_revert to w = do
    pinned ← unwrap_or w.revert_to Error.nothing_to_revert
    require (ltb env.block_timestamp w.revert_until_ns) Error.revert_window_closed
    require (same_option to (some pinned)) Error.revert_target_pinned
    ok (record w { revert_to = none; revert_until_ns = 0 })

  -- The holder who asked for the rotation, where its cause needs one.
  abbrev pub assert_holder : Option AccountId → TenantWallet → Check
  assert_holder asked_by w = do
    holder ← unwrap_or asked_by Error.transfer_not_requested
    require (holder != w.authority) Error.unauthorized
    require (IdSet.contains w.wallet.extensions holder) Error.transfer_not_requested

  abbrev pub when : Bool → Check → Check
  when true check = check
  when false check = ok tt

  -- Any other rotation opens a window in which it can be reverted.
  abbrev pub open_rotation :
      RotationCause → Option AccountId → TenantWallet → Result Error TenantWallet
  open_rotation cause asked_by w = do
    when (needs_holder cause) (assert_holder asked_by w)
    when (needs_expiry cause) (require (lease_expired env w) Error.lease_active)
    ok (record w {
      revert_to = some w.owner;
      revert_until_ns = sat_add u64_max env.block_timestamp revert_window_ns;
    })

  abbrev pub assert_target : Option AccountId → TenantWallet → Check
  assert_target none w = ok tt
  assert_target (some next) w = do
    require (next != env.current_account_id) Error.self_target
    require (next != w.authority) Error.unauthorized

  -- The new owner's entry; `previous` is the owner before.
  abbrev pub seat : Option AccountId → RotationCause → AccountId → TenantWallet → Outcome
  seat none cause previous w = record { state = w; effects = [] }
  seat (some next) cause previous w =
      let thaw = (next != previous) && is_self_frozen w.frozen in
      record {
        state = record w {
          frozen = if thaw then FreezeState.unfrozen else w.frozen;
          wallet = record (w.wallet) { extensions = IdSet.insert w.wallet.extensions next };
          owner = next;
          payout_account = if repoints_payout cause then next else w.payout_account;
        };
        effects =
            (if thaw then Effect.emit Event.unfrozen ∷ [] else [])
            ++ (if repoints_payout cause
                then Effect.emit (Event.payout_account_set next) ∷ []
                else []);
      }

  -- What a rotation does once its gate is passed.
  unfoldable pub rotate : Option AccountId → RotationCause → TenantWallet → Result Error Outcome
  rotate to cause w = do
    assert_target to w
    let outgoing = w.payout_account
    let sweepable = sweeps cause && not (same_option to (some outgoing))
    let cleared = record w {
      spend_grants = [];
      rotation_seq = sat_add u64_max w.rotation_seq 1;
      wallet = record (w.wallet) { extensions = IdSet.retain_eq w.wallet.extensions w.authority };
      state = if parks cause then OperatingState.parked else w.state;
    }
    check_lockout cleared
    let seated = seat to cause w.owner cleared
    ok (record {
      state = seated.state;
      effects = seated.effects ++ (if sweepable then sweep_to env outgoing else []);
    })

  -- The branch on the cause at the head of `apply_rotation`.
  unfoldable pub open_gate :
      Option AccountId → RotationCause → Option AccountId → TenantWallet → Result Error TenantWallet
  unfolding lease_expired
  open_gate to cause asked_by w =
      if is_revert cause then open_revert to w else open_rotation cause asked_by w

  unfoldable pub apply_rotation :
      Option AccountId → RotationCause → Option AccountId → TenantWallet → Result Error Outcome
  apply_rotation to cause asked_by w = do
    opened ← open_gate to cause asked_by w
    rotate to cause opened

  unfoldable pub hos_transfer_ownership :
      Option AccountId → RotationCause → Option AccountId → TenantWallet → Result Error Outcome
  hos_transfer_ownership to cause asked_by w = do
    assert_one_yocto env
    assert_authority env w
    require (not (is_re_rent cause)) Error.rerent_needs_own_call
    when (is_recovery cause)
        (require (not (is_self_frozen (effective_frozen env w))) Error.self_frozen)
    apply_rotation to cause asked_by w

  -- The call returns `true`.
  unfoldable pub hos_re_rent : AccountId → AccountId → ℕ → TenantWallet → Result Error Outcome
  hos_re_rent to payout_account lease_until_ns w = do
    assert_one_yocto env
    assert_authority env w
    require (leb w.lease_until_ns lease_until_ns) Error.lease_not_monotonic
    require (ltb env.block_timestamp lease_until_ns) Error.lease_in_past
    require (payout_account != env.current_account_id) Error.self_target
    rotated ← apply_rotation (some to) RotationCause.re_rent none w
    ok (record {
      state = record (rotated.state) {
        payout_account = payout_account;
        lease_until_ns = lease_until_ns;
        state = OperatingState.active;
      };
      effects =
          rotated.effects
          ++ (Effect.emit (Event.payout_account_set payout_account)
              ∷ Effect.emit (Event.lease_set lease_until_ns OperatingState.active)
              ∷ []);
    })
