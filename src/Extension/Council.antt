-- ===== src/Extension/Council.antt =====
-- contracts/hos-extension/src/lib.rs: the council, the treasury, the admins and the pause.
use tla_contracts.Prelude.{
  true, false, none, some, [], ◌∷◌, ltb, leb, ◌==◌, ◌!=◌, is_some, length, if◌then◌else◌, Result,
  ok, require, unwrap_or, ◌>>=◌, ◌>>◌, sat_add, u64_max,
}
use tla_contracts.Prelude.IdSet
use tla_contracts.Near.{AccountId, Env}
use tla_contracts.HosCommon.{max_authority_hold_ns}
use tla_contracts.Extension.Types.{
  HosExtension, Event, Effect, Error, Outcome, upgrade_delay_ns, max_admins, assert_admin,
  assert_council, assert_one_yocto,
}

module _ (env : Env) where
  unfoldable pub approve_council_rotation : AccountId → HosExtension → Result Error Outcome
  approve_council_rotation new_council x = do
    assert_one_yocto env
    assert_council env x
    require (new_council != x.council) Error.council_unchanged
    require (new_council != env.current_account_id) Error.council_is_self
    ok (record {
      state = record x {
        pending_council = some new_council;
        pending_council_at = some env.block_timestamp;
      };
      effects =
          Effect.emit (Event.council_rotation_approved new_council env.predecessor_account_id) ∷ [];
    })

  unfoldable pub cancel_council_rotation : HosExtension → Result Error Outcome
  cancel_council_rotation x = do
    assert_one_yocto env
    assert_council env x
    require (is_some x.pending_council) Error.no_council_rotation_pending
    ok (record {
      state = record x { pending_council = none; pending_council_at = none };
      effects = Effect.emit (Event.council_rotation_cancelled env.predecessor_account_id) ∷ [];
    })

  unfoldable pub commit_council_rotation : HosExtension → Result Error Outcome
  commit_council_rotation x = do
    assert_one_yocto env
    pending ← unwrap_or x.pending_council Error.no_council_rotation_pending
    require (env.predecessor_account_id == pending) Error.only_pending_council
    approved_at ← unwrap_or x.pending_council_at Error.no_council_rotation_pending
    require (leb (sat_add u64_max approved_at upgrade_delay_ns) env.block_timestamp)
        Error.council_rotation_too_young
    ok (record {
      state = record x { council = pending; pending_council = none; pending_council_at = none };
      effects = Effect.emit (Event.council_rotated pending env.predecessor_account_id) ∷ [];
    })

  unfoldable pub approve_treasury_rotation : AccountId → HosExtension → Result Error Outcome
  approve_treasury_rotation new_treasury x = do
    assert_one_yocto env
    assert_council env x
    require (new_treasury != x.treasury) Error.treasury_unchanged
    require (new_treasury != env.current_account_id) Error.treasury_is_self
    ok (record {
      state = record x {
        pending_treasury = some new_treasury;
        pending_treasury_at = some env.block_timestamp;
      };
      effects =
          Effect.emit (Event.treasury_rotation_approved new_treasury env.predecessor_account_id)
          ∷ [];
    })

  unfoldable pub cancel_treasury_rotation : HosExtension → Result Error Outcome
  cancel_treasury_rotation x = do
    assert_one_yocto env
    assert_council env x
    require (is_some x.pending_treasury) Error.no_treasury_rotation_pending
    ok (record {
      state = record x { pending_treasury = none; pending_treasury_at = none };
      effects = Effect.emit (Event.treasury_rotation_cancelled env.predecessor_account_id) ∷ [];
    })

  unfoldable pub commit_treasury_rotation : HosExtension → Result Error Outcome
  commit_treasury_rotation x = do
    assert_one_yocto env
    pending ← unwrap_or x.pending_treasury Error.no_treasury_rotation_pending
    require (env.predecessor_account_id == pending) Error.only_pending_treasury
    approved_at ← unwrap_or x.pending_treasury_at Error.no_treasury_rotation_pending
    require (leb (sat_add u64_max approved_at upgrade_delay_ns) env.block_timestamp)
        Error.treasury_rotation_too_young
    ok (record {
      state = record x { treasury = pending; pending_treasury = none; pending_treasury_at = none };
      effects =
          Effect.emit (Event.treasury_rotated x.treasury pending env.predecessor_account_id) ∷ [];
    })

  unfoldable pub pause : HosExtension → Result Error Outcome
  pause x = do
    assert_admin env x
    ok (record {
      state = record x {
        paused = true;
        paused_until_ns = sat_add u64_max env.block_timestamp max_authority_hold_ns;
      };
      effects = Effect.emit (Event.contract_paused env.predecessor_account_id) ∷ [];
    })

  unfoldable pub unpause : HosExtension → Result Error Outcome
  unpause x = do
    assert_admin env x
    ok (record {
      state = record x { paused = false; paused_until_ns = 0 };
      effects = Effect.emit (Event.contract_unpaused env.predecessor_account_id) ∷ [];
    })

  -- An admin who is held already is added in silence.
  unfoldable pub add_admin : AccountId → HosExtension → Result Error Outcome
  add_admin account x = do
    assert_one_yocto env
    assert_council env x
    require (ltb (length x.admins) max_admins) Error.admin_set_full
    if IdSet.contains x.admins account
        then ok (record { state = x; effects = [] })
        else ok (record {
          state = record x { admins = IdSet.insert x.admins account };
          effects = Effect.emit (Event.admin_added account env.predecessor_account_id) ∷ [];
        })

  unfoldable pub remove_admin : AccountId → HosExtension → Result Error Outcome
  remove_admin account x = do
    assert_one_yocto env
    assert_council env x
    require (ltb 1 (length x.admins)) Error.cannot_remove_last_admin
    if IdSet.contains x.admins account
        then ok (record {
          state = record x { admins = IdSet.remove x.admins account };
          effects = Effect.emit (Event.admin_removed account env.predecessor_account_id) ∷ [];
        })
        else ok (record { state = x; effects = [] })
