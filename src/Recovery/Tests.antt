-- ===== src/Recovery/Tests.antt =====
-- contracts/mpc-recovery/src: a contract with two watchers, a native recovery from its arming to the call
-- of the signer, and each theorem about it.
use tla_contracts.Prelude.{
  ℕ, ◌+◌, ◌*◌, ◌≡◌, ◌≤◌, ◌↔◌, refl, true, false, none, some, List, [], ◌∷◌, ◌++◌, Result, ok, err,
  arith, length, ◌==◌,
}
use tla_contracts.Prelude.IdMap
use tla_contracts.Prelude.IdSet
use tla_contracts.Near.{AccountId, Bytes, Env, second_ns}
use tla_contracts.Recovery.Types.{
  Keys, PublicKey, CurveType, MpcRecovery, Verdict, WatcherSignature, Error, Outcome,
}
use tla_contracts.Recovery.Proofs.{verify_quorum}
use tla_contracts.Recovery.Tx.{to_hex}
use tla_contracts.Recovery.Hex.{read_hex, read_hex-to_hex}
use tla_contracts.Recovery.Messages.{Statement, message_of_injective}
use tla_contracts.Recovery.Quorum.{AreSigners, verify_quorum_iff}
use tla_contracts.Recovery.Governance.{new}
use tla_contracts.Recovery.Policies.{arm_policy_install, install_policy}
use tla_contracts.Recovery.Native.{request_recovery, submit_verdict, finalize_recovery}
use tla_contracts.Recovery.Calls
use tla_contracts.Recovery.Rounds.{IsRequestAt, round_used_once}
use tla_contracts.Recovery.Warrants.{IsGuarded}
use tla_contracts.Recovery.Warrants.Reach.{TookIn, Signs, new-IsGuarded, finalize_recovery-Signs}

-- 31 zeros
abbrev padding : Bytes
padding =
    0 ∷ 0 ∷ 0 ∷ 0 ∷ 0 ∷ 0 ∷ 0 ∷ 0 ∷ 0 ∷ 0 ∷ 0 ∷ 0 ∷ 0 ∷ 0 ∷ 0 ∷ 0 ∷ 0 ∷ 0 ∷ 0 ∷ 0 ∷ 0 ∷ 0 ∷ 0 ∷ 0
    ∷ 0 ∷ 0 ∷ 0 ∷ 0 ∷ 0 ∷ 0 ∷ 0 ∷ []

-- A key's bytes are its curve, its number and padding.
abbrev bytes_of : PublicKey → Bytes
bytes_of key = 0 ∷ key ∷ padding

-- A key signs any message with its bytes twice.
abbrev signed_by : PublicKey → Bytes
signed_by key = (key ∷ padding) ++ (key ∷ padding)

abbrev first : Bytes → ℕ
first [] = 0
first (b ∷ bytes) = b

abbrev keys : Keys
keys = record {
  as_bytes = bytes_of;
  curve_type = λ key. CurveType.ed25519;
  is_weak = λ bytes. some false;
  ed25519_verify = λ signature message pubkey. first signature == first pubkey;
  sha256 = λ bytes. 171 ∷ [];
  parse = λ text. none;
}

abbrev name_of : AccountId → Bytes
name_of id = id ∷ []

-- A receipt on account 1.
abbrev env_at : AccountId → ℕ → Env
env_at caller now = record {
  current_account_id = 1;
  predecessor_account_id = caller;
  block_timestamp = now;
  attached_deposit = 1;
  account_balance = 0;
  storage_byte_cost = 0;
  storage_usage = 0;
  prepaid_gas = 0;
  used_gas = 0;
  promise_success = true;
  as_str = name_of;
  sha256 = λ code. 0;
}

read_hex-to_hex_example :
    read_hex (to_hex (0 ∷ 15 ∷ 255 ∷ 167 ∷ [])) ≡ some (0 ∷ 15 ∷ 255 ∷ 167 ∷ [])
read_hex-to_hex_example =
    read_hex-to_hex (0 ∷ 15 ∷ 255 ∷ 167 ∷ [])
      (omega arith, (omega arith, (omega arith, (omega arith, tt))))

-- The recovery of account 30 to key 77 is approved in round 3.
abbrev approval : Statement
approval = Statement.verdict 30 77 3 true

abbrev here : AccountId
here = 1

message_of_injective_example : (here ≡ here) × (approval ≡ approval)
message_of_injective_example =
    message_of_injective keys name_of (λ a b e. ground (arith, e)) (λ a. omega arith)
      (λ a b e. ground (arith, e)) here here approval approval (omega arith) (omega arith) refl

-- Of the watchers 51, 52 and 53, the first signs twice and the second once; 99 is no watcher.
abbrev ballots : List (PublicKey × Bytes)
ballots = (51, signed_by 51) ∷ (51, signed_by 51) ∷ (99, signed_by 99) ∷ (52, signed_by 52) ∷ []

verify_quorum_iff_example : (verify_quorum keys (7 ∷ []) ballots (51 ∷ 52 ∷ 53 ∷ []) 2 ≡ true) ↔ (
    (ks : List PublicKey) × IdSet.IsNodup ks
    × AreSigners keys (7 ∷ []) (51 ∷ 52 ∷ 53 ∷ []) ballots ks
    × (2 ≤ length ks))
verify_quorum_iff_example =
    verify_quorum_iff keys (7 ∷ []) (51 ∷ 52 ∷ 53 ∷ []) ballots 2 (omega arith)

two_of_three : verify_quorum keys (7 ∷ []) ballots (51 ∷ 52 ∷ 53 ∷ []) 2 ≡ true
unfolding verify_quorum IdSet.contains
two_of_three = refl

not_three : verify_quorum keys (7 ∷ []) ballots (51 ∷ 52 ∷ 53 ∷ []) 3 ≡ false
unfolding verify_quorum IdSet.contains
not_three = refl

abbrev fresh : MpcRecovery
fresh = record {
  state_version = 2;
  owner = 10;
  installer = 10;
  signer = 20;
  transfer_authority = 15;
  watchers = 51 ∷ 52 ∷ 53 ∷ [];
  threshold = 2;
  accounts = [];
  round_floor = [];
  approved_code_hash = none;
  approved_at = none;
  registry = none;
  armed = [];
  upgrade_proven = false;
  pending_owner = none;
  pending_owner_at = none;
}

abbrev due : ℕ
due = 100 + 60 * second_ns

abbrev verdicts : List WatcherSignature
verdicts =
    record { public_key = 51; signature = signed_by 51 }
    ∷ record { public_key = 52; signature = signed_by 52 }
    ∷ []

-- Account 30 arms its policy, the owner installs it, key 40 attests a request for key 77, and two watchers
-- approve it a minute later.
abbrev story : List (Env × Calls.Call)
story =
    (env_at 30 10, Calls.arm 40 60)
    ∷ (env_at 10 20, Calls.install 30 41 40 60)
    ∷ (env_at 31 100, Calls.request 30 77 0 (signed_by 40))
    ∷ (env_at 31 due, Calls.judge 30 Verdict.approve verdicts)
    ∷ []

abbrev outcome : Result Error Outcome → Outcome
outcome (ok done) = done
outcome (err e) = record { state = fresh; effects = [] }

new-IsGuarded_example :
    IsGuarded keys (TookIn keys story fresh) 30 (Calls.receive_all keys fresh story)
unfolding new IdSet.contains
new-IsGuarded_example =
    new-IsGuarded keys 30 (env_at 10 0) 10 20 15 (51 ∷ 52 ∷ 53 ∷ []) 2 fresh story refl

abbrev finalizing : Env
finalizing = env_at 10 (due + 1)

abbrev recovered : MpcRecovery
recovered = Calls.receive_all keys fresh story

finalize_recovery-Signs_example :
    Signs keys 30
      (TookIn keys story fresh)
      finalizing
      5
      padding
      recovered
      (outcome (finalize_recovery keys finalizing 30 5 padding recovered))
unfolding new finalize_recovery request_recovery submit_verdict install_policy arm_policy_install
    Calls.receive_all Calls.receive IdMap.get IdMap.insert IdMap.remove IdSet.contains
finalize_recovery-Signs_example =
    finalize_recovery-Signs keys 30 finalizing (env_at 10 0) 10 20 15 (51 ∷ 52 ∷ 53 ∷ []) 2 fresh
      story 5 padding (outcome (finalize_recovery keys finalizing 30 5 padding recovered)) refl refl

-- An account that was installed at round 0, and a request that was accepted there.
abbrev armed : MpcRecovery
armed =
    Calls.receive_all keys fresh
      ((env_at 30 10, Calls.arm 40 60) ∷ (env_at 10 20, Calls.install 30 41 40 60) ∷ [])

abbrev requesting : Result Error Outcome
requesting = request_recovery keys (env_at 31 100) 30 77 0 (signed_by 40) armed

-- The authority resets the policy, and the account has it installed again.
abbrev reset : List (Env × Calls.Call)
reset =
    (env_at 15 200, Calls.reset 30)
    ∷ (env_at 30 210, Calls.arm 40 60)
    ∷ (env_at 10 220, Calls.install 30 41 40 60)
    ∷ []

abbrev repeated : Calls.Call
repeated = Calls.request 30 77 0 (signed_by 40)

round_used_once_example : ¬ (
    (Calls.run_call keys
        (env_at 31 300)
        repeated
        (Calls.receive_all keys (outcome requesting).state reset)
      ≡ ok (outcome requesting))
    × IsRequestAt keys 30 (env_at 31 300) repeated 0 (outcome requesting).state)
unfolding new finalize_recovery request_recovery submit_verdict install_policy arm_policy_install
    Calls.receive_all Calls.receive IdMap.get IdMap.insert IdMap.remove IdSet.contains
round_used_once_example =
    round_used_once keys 30 (env_at 31 100) (env_at 31 300) repeated repeated 0 armed
      (outcome requesting) (outcome requesting) reset refl (refl, refl)
