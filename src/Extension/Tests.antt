-- ===== src/Extension/Tests.antt =====
-- contracts/hos-extension/src/lib.rs: an extension from its set-up, and each theorem about it.
use tla_contracts.Prelude.{
  ℕ, ◌+◌, ◌≡◌, refl, true, false, none, some, [], ◌∷◌, Result, ok, err, List, arith,
}
use tla_contracts.Near.{AccountId, Env}
use tla_contracts.HosCommon.{RotationCause, ft_storage_deposit_yocto}
use tla_contracts.Succession.{Moves}
use tla_contracts.Extension.Types.{
  Promise, HosExtension, Error, Outcome, upgrade_delay_ns, effective_paused, min_sweep_attached,
}
use tla_contracts.Extension.Council.{approve_council_rotation, commit_council_rotation}
use tla_contracts.Extension.Rotation.{
  force_transfer, retry_recovery_reset, after_recovery_reset, reset_recovery,
}
use tla_contracts.Extension.Calls
use tla_contracts.Extension.Offices.{
  council_office, treasury_office, calls_of, receive_all-Moves, offices_stay,
}
use tla_contracts.Extension.Authority.{AreWarranted, run_call-AreWarranted}
use tla_contracts.Extension.Resets.{reset_stays_due}
use tla_contracts.Extension.Sweep.{sweep_ft}
use tla_contracts.Extension.Payouts.{Replies, payments, settlement, payments-sweep_ft}

-- A receipt on account 1.
abbrev env_at : AccountId → ℕ → Env
env_at caller now = record {
  current_account_id = 1;
  predecessor_account_id = caller;
  block_timestamp = now;
  attached_deposit = 1;
  account_balance = 0;
  storage_byte_cost = 0;
  storage_usage = 0;
  prepaid_gas = 0;
  used_gas = 0;
  promise_success = true;
  as_str = λ id. [];
  sha256 = λ code. 0;
}

-- The council is 10, the admin 11, the registry 12, the recovery contract 13, the treasury 14.
abbrev fresh : HosExtension
fresh = record {
  state_version = 4;
  admins = 11 ∷ [];
  registry = 12;
  recovery = 13;
  paused = false;
  version = 1;
  treasury = 14;
  approved_code_hash = none;
  approved_at = none;
  council = 10;
  paused_until_ns = 0;
  recovery_reset_pending = [];
  sweep_pending = [];
  upgrade_proven = false;
  pending_council = none;
  pending_council_at = none;
  pending_treasury = none;
  pending_treasury_at = none;
}

abbrev later : ℕ
later = 100 + upgrade_delay_ns

-- The council names account 20, which takes the office 48 hours later.
abbrev handover : List Calls.Receipt
handover = (env_at 10 100, Calls.name_council 20) ∷ (env_at 20 later, Calls.commit_council) ∷ []

handover_done : (Calls.receive_all fresh handover).council ≡ 20
unfolding Calls.receive_all Calls.receive Calls.run_call approve_council_rotation
    commit_council_rotation
handover_done = refl

receive_all-Moves_example :
    Moves upgrade_delay_ns
      (calls_of fresh handover)
      (council_office fresh)
      (council_office (Calls.receive_all fresh handover))
    × Moves upgrade_delay_ns
        (calls_of fresh handover)
        (treasury_office fresh)
        (treasury_office (Calls.receive_all fresh handover))
receive_all-Moves_example = receive_all-Moves handover fresh

-- The council admits account 21 and names account 20 within a minute.
abbrev morning : List Calls.Receipt
morning = (env_at 10 100, Calls.admit 21) ∷ (env_at 10 200, Calls.name_council 20) ∷ []

offices_stay_example :
    ((Calls.receive_all fresh morning).council ≡ 10)
    × ((Calls.receive_all fresh morning).treasury ≡ 14)
offices_stay_example =
    offices_stay 100 200 morning fresh (omega arith, omega arith, (omega arith, omega arith, tt))
      (ground arith) refl refl

abbrev effects_of : Result Error Outcome → Outcome
effects_of (ok done) = done
effects_of (err e) = record { state = fresh; effects = [] }

-- A transfer of account 30 to account 31, asked by its holder 32.
abbrev move : Calls.Call
move = Calls.transfer_name 30 (some 31) RotationCause.transfer (some 32)

run_call-AreWarranted_example :
    AreWarranted
      (env_at 12 100)
      fresh
      (effects_of (Calls.run_call (env_at 12 100) move fresh)).effects
unfolding Calls.run_call force_transfer effective_paused
run_call-AreWarranted_example =
    run_call-AreWarranted (env_at 12 100) fresh move
      (effects_of (Calls.run_call (env_at 12 100) move fresh)) refl

-- The reset of account 30 failed; one of account 31 succeeds.
abbrev answers : List Calls.Receipt
answers = (env_at 1 200, Calls.after_reset 31 (some true)) ∷ []

reset_stays_due_example :
    retry_recovery_reset
      (env_at 40 300)
      30
      (Calls.receive_all (after_recovery_reset (env_at 1 100) 30 none fresh).state answers)
    ≡ ok (record {
      state = Calls.receive_all (after_recovery_reset (env_at 1 100) 30 none fresh).state answers;
      effects =
          reset_recovery
            (Calls.receive_all (after_recovery_reset (env_at 1 100) 30 none fresh).state answers)
            30
          ∷ [];
    })
reset_stays_due_example =
    reset_stays_due 30 (env_at 1 100) (env_at 40 300) none fresh answers (ground arith)
      ((ground arith), tt)

-- The token answers a balance, but the storage deposit fails.
abbrev replies : Replies
replies = record { payout = some 33; balance = some 500; stored = false; settled = none }

abbrev attached : Env
attached = record (env_at 12 100) { attached_deposit = min_sweep_attached }

payments-sweep_ft_example :
    (min_sweep_attached ≡ ft_storage_deposit_yocto + 1)
    × (payments attached replies fresh 5 (effects_of (sweep_ft attached 30 34 35 fresh)).effects
        ≡ settlement attached replies fresh 30 34 35 (some 33) (some 500))
unfolding sweep_ft
payments-sweep_ft_example =
    payments-sweep_ft attached replies fresh 0 30 34 35
      (effects_of (sweep_ft attached 30 34 35 fresh)) refl

refunded_in_full :
    settlement attached replies fresh 30 34 35 (some 33) (some 500)
    ≡ Promise.transfer 35 min_sweep_attached ∷ []
unfolding settlement
refunded_in_full = refl
