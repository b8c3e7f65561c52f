-- ===== src/Registrar/Tests.antt =====
-- contracts/registrar/src/lib.rs: a registrar from its set-up, and each theorem about it.
use tla_contracts.Prelude.{
  ℕ, ◌+◌, ◌*◌, ◌^◌, ◌≡◌, ◌≤◌, ◌↔◌, ◌==◌, refl, true, false, Option, none, some, List, [], ◌∷◌, ◌++◌,
  IsOk, arith, if◌then◌else◌,
}
use tla_contracts.Prelude.Codes
use tla_contracts.Prelude.IdSet
use tla_contracts.Near.{AccountId, Bytes, Env}
use tla_contracts.Succession.{Moves}
use tla_contracts.Wallet.Types.{Upstream, WalletInit}
use tla_contracts.Wallet.Init.{hos_init}
use tla_contracts.Registrar.Types.{
  ChainId, RegistrarConfig, Registrar, Effect, Promise, Callback, Outcome, upgrade_delay_ns,
}
use tla_contracts.Registrar.Mint.{new, create_sub_account}
use tla_contracts.Registrar.Council.{approve_council_rotation, commit_council_rotation}
use tla_contracts.Registrar.Calls
use tla_contracts.Registrar.Offices.{
  council_office, calls_of, receive_all-council, new-create_sub_account,
}
use tla_contracts.Registrar.Handoff.{init_env, FitsWallet, create_sub_account-hos_init}

-- "tla" and "bob.tla"
abbrev tla : Bytes
tla = b't' ∷ b'l' ∷ b'a' ∷ []

abbrev bob : Bytes
bob = b'b' ∷ b'o' ∷ b'b' ∷ []

abbrev bob_tla : Bytes
bob_tla = bob ++ b'.' ∷ tla

-- Account 1 is "bob.tla", any other is "tla".
abbrev names : AccountId → Bytes
names id = if id == 1 then bob_tla else tla

-- A reader of the one id.
abbrev read_rest : Option Bytes → Option AccountId
read_rest (some []) = some 1
read_rest _ = none

abbrev parse : Bytes → Option AccountId
parse text = read_rest (Codes.strip_suffix text bob_tla)

read_rest-names :
    (text : Bytes) (id : AccountId) (rest : Option Bytes)
    → Codes.strip_suffix text bob_tla ≡ rest
    → read_rest rest ≡ some id
    → names id ≡ text
read_rest-names text id none e h = absurd (ground arith)
read_rest-names text id (some []) e h = ground (arith, Codes.strip_suffix_sound text bob_tla [] e)
read_rest-names text id (some (c ∷ cs)) e h = absurd (ground arith)

parse-names : (text : Bytes) (id : AccountId) → parse text ≡ some id → names id ≡ text
parse-names text id h = read_rest-names text id (Codes.strip_suffix text bob_tla) refl h

-- A receipt on account 2.
abbrev env_at : AccountId → ℕ → ℕ → Env
env_at caller now deposit = record {
  current_account_id = 2;
  predecessor_account_id = caller;
  block_timestamp = now;
  attached_deposit = deposit;
  account_balance = 0;
  storage_byte_cost = 0;
  storage_usage = 0;
  prepaid_gas = 0;
  used_gas = 0;
  promise_success = true;
  as_str = names;
  sha256 = λ code. 0;
}

-- The registry is 12, the council 10, the extension 15.
abbrev config : RegistrarConfig
config = record {
  registry = 12;
  council = 10;
  wallet_impl = 16;
  hos_extension = 15;
  recovery = 13;
  chain_id = ChainId.mainnet;
  min_balance = 10 ^ 23;
  wallet_timeout_secs = 3600;
}

abbrev fresh : Registrar
fresh = record {
  state_version = 2;
  registry = 12;
  council = 10;
  wallet_impl = 16;
  hos_extension = 15;
  recovery = 13;
  chain_id = ChainId.mainnet;
  min_balance = 10 ^ 23;
  wallet_timeout_secs = 3600;
  approved_code_hash = none;
  approved_at = none;
  config_epoch = 0;
  upgrade_proven = false;
  pending_council = none;
  pending_council_at = none;
}

abbrev later : ℕ
later = 100 + upgrade_delay_ns

-- The council names account 20, which takes the office 48 hours later.
abbrev handover : List Calls.Receipt
handover = (env_at 10 100 1, Calls.name_council 20) ∷ (env_at 20 later 1, Calls.commit_council) ∷ []

receive_all-council_example :
    Moves upgrade_delay_ns
      (calls_of parse fresh handover)
      (council_office fresh)
      (council_office (Calls.receive_all parse fresh handover))
receive_all-council_example = receive_all-council parse handover fresh

abbrev upstream : Upstream
upstream = record {
  new_nonces = λ timeout. [];
  check_cleanup = λ now nonces. nonces;
  has_extension = λ s id. IdSet.contains s.extensions id;
  total_deposit = λ p. 0;
  read_ft_args = λ args. none;
  read_nft_args = λ args. none;
  read_blob = λ text. none;
}

-- The registry mints "bob" for account 40, leased until 1000.
abbrev minting : Env
minting = env_at 12 100 (10 ^ 23)

abbrev bob_init : WalletInit
bob_init = record {
  owner_account = 40;
  authority = 15;
  collection_id = 12;
  payout_account = 41;
  lease_until_ns = 1000;
  timeout_secs = 3600;
}

abbrev minted : Outcome
minted = record {
  state = fresh;
  effects =
      Effect.send (Promise.mint 1 (10 ^ 23) 16 bob_init) (Callback.on_minted 1 40 (10 ^ 23)) ∷ [];
}

create_sub_account-hos_init_example :
    IsOk (hos_init upstream (init_env minting 1 200) bob_init) ↔ FitsWallet fresh 1 40 1000 200
unfolding create_sub_account Codes.strip_suffix Codes.has_code
create_sub_account-hos_init_example =
    create_sub_account-hos_init upstream parse minting parse-names bob 40 41 1000 fresh minted 1
      (10 ^ 23) 16 bob_init (Callback.on_minted 1 40 (10 ^ 23)) refl refl 200

new-create_sub_account_example :
    (◌≡◌ {A = ℕ} 12 12)
    × (7 * 10 ^ 21 ≤ 10 ^ 23)
    × (account : AccountId) × (parse (bob ++ (b'.' ∷ names 2)) ≡ some account)
    × (minted.effects
        ≡ Effect.send
            (Promise.mint account (10 ^ 23) 16 bob_init)
            (Callback.on_minted account 40 (10 ^ 23))
          ∷ [])
unfolding new create_sub_account Codes.strip_suffix Codes.has_code Calls.receive_all Calls.receive
    approve_council_rotation commit_council_rotation
new-create_sub_account_example =
    new-create_sub_account parse (env_at 10 0 0) minting config fresh handover bob 40 41 1000
      (record minted { state = Calls.receive_all parse fresh handover }) refl refl
