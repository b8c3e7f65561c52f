-- ===== src/Near.antt =====
-- What a contract reads of the NEAR host during one receipt, and the units of its amounts and times.
-- The host is no code of the repository: a receipt is a value of `Env`, and a theorem that needs a
-- fact about the host (such as a time that fits its word) has it as a hypothesis.
use tla_contracts.Prelude.{ℕ, ◌*◌, ◌^◌, Bool, List}

-- Account ids are only compared, so they are numbers. What `as_str` shows of one is `Env.as_str`.
abbrev pub AccountId : Type 0
AccountId = ℕ

-- The id of an item in a collection, only compared.
abbrev pub TokenId : Type 0
TokenId = ℕ

-- The 32 bytes of a sha256 digest, only compared.
abbrev pub CryptoHash : Type 0
CryptoHash = ℕ

abbrev pub Bytes : Type 0
Bytes = List ℕ

pub record Env : Type 0 where
  pub current_account_id : AccountId
  pub predecessor_account_id : AccountId
  pub block_timestamp : ℕ
  pub attached_deposit : ℕ
  pub account_balance : ℕ
  pub storage_byte_cost : ℕ
  pub storage_usage : ℕ
  pub prepaid_gas : ℕ
  pub used_gas : ℕ
  -- `is_promise_success()`, and a `callback_result` that is `Ok`
  pub promise_success : Bool
  -- the text of an account id, as code points
  pub as_str : AccountId → List ℕ
  -- `env::sha256`
  pub sha256 : Bytes → CryptoHash

abbrev pub one_yocto : ℕ
one_yocto = 1

-- Nanoseconds in a second, an hour and a day.
abbrev pub second_ns : ℕ
second_ns = 1_000_000_000

abbrev pub hour_ns : ℕ
hour_ns = 60 * 60 * second_ns

abbrev pub day_ns : ℕ
day_ns = 24 * hour_ns

abbrev pub tgas : ℕ
tgas = 10 ^ 12
