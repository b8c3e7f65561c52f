-- ===== src/Deployer/Council.antt =====
-- contracts/wallet-impl-deployer/src/lib.rs: the rotation of the council, in two steps.
use tla_contracts.Prelude.{
  none, some, [], ◌∷◌, leb, ◌==◌, ◌!=◌, is_some, Result, ok, require, unwrap_or, ◌>>=◌, ◌>>◌,
  sat_add, u64_max,
}
use tla_contracts.Near.{AccountId, Env}
use tla_contracts.Deployer.Types.{
  ImplDeployer, Event, Effect, Error, Outcome, default_approval_delay_ns, assert_one_yocto,
  assert_council,
}

module _ (env : Env) where
  unfoldable pub approve_council_rotation : AccountId → ImplDeployer → Result Error Outcome
  approve_council_rotation new_council d = do
    assert_one_yocto env
    assert_council env d
    require (new_council != d.council) Error.council_unchanged
    require (new_council != env.current_account_id) Error.council_is_self
    ok (record {
      state = record d {
        pending_council = some new_council;
        pending_council_at = some env.block_timestamp;
      };
      effects =
          Effect.emit (Event.council_rotation_approved new_council env.predecessor_account_id) ∷ [];
    })

  unfoldable pub cancel_council_rotation : ImplDeployer → Result Error Outcome
  cancel_council_rotation d = do
    assert_one_yocto env
    assert_council env d
    require (is_some d.pending_council) Error.no_council_rotation_pending
    ok (record {
      state = record d { pending_council = none; pending_council_at = none };
      effects = Effect.emit (Event.council_rotation_cancelled env.predecessor_account_id) ∷ [];
    })

  -- The incoming council commits, after the fixed delay.
  unfoldable pub commit_council_rotation : ImplDeployer → Result Error Outcome
  commit_council_rotation d = do
    assert_one_yocto env
    pending ← unwrap_or d.pending_council Error.no_council_rotation_pending
    require (env.predecessor_account_id == pending) Error.only_pending_council
    approved_at ← unwrap_or d.pending_council_at Error.no_council_rotation_pending
    require (leb (sat_add u64_max approved_at default_approval_delay_ns) env.block_timestamp)
        Error.council_rotation_too_young
    ok (record {
      state = record d { council = pending; pending_council = none; pending_council_at = none };
      effects = Effect.emit (Event.council_rotated pending env.predecessor_account_id) ∷ [];
    })
