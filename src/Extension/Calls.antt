-- ===== src/Extension/Calls.antt =====
-- contracts/hos-extension/src/lib.rs: every entry point of the extension, as one step.
use tla_contracts.Prelude.{
  ℕ, Bool, Option, none, some, List, [], ◌∷◌, ◌==◌, Result, ok, err, require, ◌>>◌,
}
use tla_contracts.Near.{AccountId, CryptoHash, Bytes, Env}
use tla_contracts.HosCommon.{OperatingState, RotationCause}
use tla_contracts.Extension.Types.{HosExtension, Error, Outcome, Check}
use tla_contracts.Extension.Council.{
  approve_council_rotation, cancel_council_rotation, commit_council_rotation,
  approve_treasury_rotation, cancel_treasury_rotation, commit_treasury_rotation, pause, unpause,
  add_admin, remove_admin,
}
use tla_contracts.Extension.Upgrade.{
  approve_upgrade, upgrade, seal, after_seal, skim, after_skim, Stored, migrate,
}
use tla_contracts.Extension.Lease.{
  push_lease, retract_lease, set_payout, migrate_wallet, migrate_wallets,
}
use tla_contracts.Extension.Rotation.{
  force_transfer, re_rent, after_re_rent, after_force_swap, after_recovery_reset,
  retry_recovery_reset,
}
use tla_contracts.Extension.Sweep.{
  sweep_near, after_near_sweep, sweep_ft, retry_sweep, after_payout_for_sweep,
  after_balance_for_sweep, after_storage_for_sweep, after_sweep_settled,
}

-- The constructors that begin with `after` are the callbacks, with the result that they are given;
-- `migrate_state` is `migrate` on a state of the current version.
pub data Call : Type 0 where
  name_council name_treasury : AccountId → Call
  cancel_council commit_council cancel_treasury commit_treasury : Call
  pause_all unpause_all : Call
  admit dismiss : AccountId → Call
  approve : CryptoHash → Call
  upgrade_to : Bytes → Call
  migrate_state : Call
  seal_key : Bytes → Call
  after_key : Bytes → AccountId → Call
  skim_to_treasury : ℕ → Call
  after_transfer : ℕ → AccountId → AccountId → Call
  push : AccountId → ℕ → OperatingState → Call
  retract : AccountId → ℕ → Call
  payout : AccountId → AccountId → AccountId → Call
  migrate_one : AccountId → Call
  migrate_many : List AccountId → Call
  transfer_name : AccountId → Option AccountId → RotationCause → Option AccountId → Call
  rent_again : AccountId → AccountId → AccountId → ℕ → Call
  after_rented : AccountId → Option Bool → Call
  after_swap : AccountId → Call
  after_reset : AccountId → Option Bool → Call
  retry_reset : AccountId → Call
  sweep_balance : AccountId → Call
  after_balance_swept : AccountId → Option Bool → Call
  sweep_token : AccountId → AccountId → AccountId → Call
  sweep_again : AccountId → Option AccountId → Call
  after_payout : AccountId → AccountId → AccountId → Option AccountId → Call
  after_balance : AccountId → AccountId → AccountId → AccountId → Option ℕ → Call
  after_storage : AccountId → AccountId → AccountId → AccountId → ℕ → Call
  after_settled : AccountId → AccountId → AccountId → ℕ → Option Bool → Call

abbrev assert_private : Env → Check
assert_private env =
    require (env.predecessor_account_id == env.current_account_id) Error.private_method

-- A stored state of the current version.
abbrev stored_now : HosExtension → Stored
stored_now x = record {
  version = some x.state_version;
  v4 = some x;
  v3 = none;
  v2 = none;
  v1 = none;
}

unfoldable pub run_call : Env → Call → HosExtension → Result Error Outcome
run_call env (name_council account) x = approve_council_rotation env account x
run_call env cancel_council x = cancel_council_rotation env x
run_call env commit_council x = commit_council_rotation env x
run_call env (name_treasury account) x = approve_treasury_rotation env account x
run_call env cancel_treasury x = cancel_treasury_rotation env x
run_call env commit_treasury x = commit_treasury_rotation env x
run_call env pause_all x = pause env x
run_call env unpause_all x = unpause env x
run_call env (admit account) x = add_admin env account x
run_call env (dismiss account) x = remove_admin env account x
run_call env (approve hash) x = approve_upgrade env hash x
run_call env (upgrade_to code) x = upgrade env code x
run_call env migrate_state x = migrate env (stored_now x)
run_call env (seal_key key) x = seal env key x
run_call env (after_key key by) x = assert_private env >> ok (after_seal env key by x).1
run_call env (skim_to_treasury amount) x = skim env amount x
run_call env (after_transfer amount to by) x =
    assert_private env >> ok (after_skim env amount to by x).1
run_call env (push wallet until state) x = push_lease env wallet until state x
run_call env (retract wallet until) x = retract_lease env wallet until x
run_call env (payout wallet account owner) x = set_payout env wallet account owner x
run_call env (migrate_one wallet) x = ok (migrate_wallet wallet x)
run_call env (migrate_many wallets) x = migrate_wallets wallets x
run_call env (transfer_name wallet to cause asked_by) x =
    force_transfer env wallet to cause asked_by x
run_call env (rent_again wallet to account until) x = re_rent env wallet to account until x
run_call env (after_rented wallet swapped) x =
    assert_private env >> ok (after_re_rent env wallet swapped x).1
run_call env (after_swap wallet) x = assert_private env >> ok (after_force_swap env wallet x).1
run_call env (after_reset wallet reset) x =
    assert_private env >> ok (after_recovery_reset env wallet reset x)
run_call env (retry_reset wallet) x = retry_recovery_reset env wallet x
run_call env (sweep_balance wallet) x = sweep_near env wallet x
run_call env (after_balance_swept wallet settled) x =
    assert_private env >> ok (after_near_sweep env wallet settled x).1
run_call env (sweep_token wallet ft refund_to) x = sweep_ft env wallet ft refund_to x
run_call env (sweep_again wallet ft) x = retry_sweep env wallet ft x
run_call env (after_payout wallet ft refund_to answer) x =
    assert_private env >> ok (after_payout_for_sweep env wallet ft refund_to answer x).1
run_call env (after_balance wallet ft to refund_to answer) x =
    assert_private env >> ok (after_balance_for_sweep env wallet ft to refund_to answer x).1
run_call env (after_storage wallet ft to refund_to balance) x =
    assert_private env >> ok (after_storage_for_sweep env wallet ft to refund_to balance x).1
run_call env (after_settled wallet ft to amount settled) x =
    assert_private env >> ok (after_sweep_settled env wallet ft to amount settled x).1

abbrev pub Receipt : Type 0
Receipt = Env × Call

-- A call that panics leaves the state as it was.
unfoldable pub receive : HosExtension → Receipt → HosExtension
unfolding run_call
receive x (env, call) = elim (run_call env call x) [ ok done ↦ done.state | err _ ↦ x ]

unfoldable pub receive_all : HosExtension → List Receipt → HosExtension
receive_all x [] = x
receive_all x (r ∷ rs) = receive_all (receive x r) rs

-- The state that a call leaves, if it succeeds.
abbrev pub Ensures : (HosExtension → Type 0) → Result Error Outcome → Type 0
Ensures P (ok done) = P done.state
Ensures P (err e) = Unit
