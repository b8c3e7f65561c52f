-- ===== src/Deployer/Tests.antt =====
-- A deployer from its set-up to a publication and a change of council.
use tla_contracts.Prelude.{
  ℕ, ◌*◌, ◌^◌, ◌≡◌, ◌≤◌, refl, false, none, some, List, [], ◌∷◌, Result, ok, err, sat_add, u64_max,
}
use tla_contracts.Near.{AccountId, Env, day_ns}
use tla_contracts.Deployer.Types.{ImplDeployer, Error, Outcome, new, default_approval_delay_ns}
use tla_contracts.Deployer.Publish.{gd_approve, gd_deploy}
use tla_contracts.Deployer.Council.{approve_council_rotation, commit_council_rotation}
use tla_contracts.Deployer.Calls
use tla_contracts.Deployer.Approval.{WasApproved, gd_deploy-approved}
use tla_contracts.Deployer.Succession.{WasNamed, commit_council_rotation-named}

-- A receipt on account 1; the digest of any code is 7.
abbrev env_at : AccountId → ℕ → ℕ → Env
env_at caller now deposit = record {
  current_account_id = 1;
  predecessor_account_id = caller;
  block_timestamp = now;
  attached_deposit = deposit;
  account_balance = 10 ^ 25;
  storage_byte_cost = 10 ^ 19;
  storage_usage = 1000;
  prepaid_gas = 3 * 10 ^ 14;
  used_gas = 0;
  promise_success = false;
  as_str = λ id. [];
  sha256 = λ bytes. 7;
}

-- The council is 10.
abbrev fresh : ImplDeployer
fresh = record {
  state_version = 2;
  council = 10;
  current_hash = none;
  approved_hash = none;
  approved_at = none;
  approval_delay_ns = default_approval_delay_ns;
  deploy_locked_until = 0;
  approved_upgrade_hash = none;
  approved_upgrade_at = none;
  upgrade_proven = false;
  pending_council = none;
  pending_council_at = none;
}

abbrev result : Result Error Outcome → Outcome
result (ok done) = done
result (err e) = record { state = fresh; effects = [] }

abbrev receipts : List Calls.Receipt
receipts =
    (env_at 10 day_ns 1, Calls.approve 7) ∷ (env_at 10 day_ns 1, Calls.approve_rotation 11) ∷ []

abbrev start : Env
start = env_at 10 0 0

abbrev publication : Env
publication = env_at 50 (4 * day_ns) (10 ^ 21)

gd_deploy-approved_example :
    (t : ℕ) × WasApproved 7 t fresh receipts
    × (sat_add u64_max t default_approval_delay_ns ≤ 4 * day_ns)
unfolding new gd_deploy Calls.receive_all Calls.receive gd_approve approve_council_rotation
gd_deploy-approved_example =
    gd_deploy-approved start publication 10 none fresh receipts (1 ∷ [])
      (result (gd_deploy publication (1 ∷ []) (Calls.receive_all fresh receipts))) refl refl

abbrev committing : Env
committing = env_at 11 (4 * day_ns) 1

commit_council_rotation-named_example :
    (t : ℕ) × WasNamed
      (result (commit_council_rotation committing (Calls.receive_all fresh receipts))).state.council
      t
      fresh
      receipts
    × (11
        ≡ (result
            (commit_council_rotation committing (Calls.receive_all fresh receipts))).state.council)
    × (sat_add u64_max t default_approval_delay_ns ≤ 4 * day_ns)
unfolding new commit_council_rotation Calls.receive_all Calls.receive gd_approve
    approve_council_rotation
commit_council_rotation-named_example =
    commit_council_rotation-named start committing 10 none fresh receipts
      (result (commit_council_rotation committing (Calls.receive_all fresh receipts))) refl refl

abbrev approving : Outcome
approving = result (gd_approve (env_at 10 day_ns 1) 7 fresh)

-- Account 50 deploys the code that was approved two days before.
abbrev approved : ImplDeployer
approved = record fresh { approved_hash = some 7; approved_at = some 0 }

abbrev paying : Env
paying = env_at 50 (3 * day_ns) (10 ^ 24)

abbrev deployed : Outcome
deployed = result (gd_deploy paying (1 ∷ []) approved)
