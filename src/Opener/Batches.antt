-- ===== src/Opener/Batches.antt =====
-- contracts/registrar-opener/src/batch.rs: drafting a batch of names, opening them, and what comes of
-- each.
use tla_contracts.Prelude.{
  ℕ, ◌-◌, Bool, true, false, none, some, List, [], ◌∷◌, ltb, leb, ◌==◌, ◌!=◌, not, ◌||◌,
  if◌then◌else◌, is_empty, length, Result, ok, require, unwrap_or, ◌>>=◌, ◌>>◌, sat_add, sat_mul,
  checked_add, u32_max, u64_max, u128_max,
}
use tla_contracts.Prelude.IdSet
use tla_contracts.Prelude.IdSet.{IdSet}
use tla_contracts.Prelude.IdMap
use tla_contracts.Near.{AccountId, CryptoHash, Bytes, Env}
use tla_contracts.Opener.Types.{
  Batch, RegistrarOpener, Host, Event, Promise, Effect, Error, Outcome, Check, gas_per_name,
  min_funding, max_names_per_call, max_names_per_add, max_live_batches, max_init_args_len,
  assert_operator, assert_operator_account, assert_admin_or_operator, batch_mut, names_of,
}
use tla_contracts.Opener.Names.{assert_openable, seed_digest, fold_digest}

module _ (host : Host) (env : Env) where
  unfoldable pub assert_setup : AccountId → Bytes → Check
  assert_setup global_code init_args = do
    require (global_code != env.current_account_id) Error.code_is_self
    require (leb (length init_args) max_init_args_len) Error.init_args_too_long
    require (host.is_object init_args) Error.init_args_not_an_object

  abbrev pub draft : AccountId → Bytes → ℕ → Batch
  draft global_code init_args funding = record {
    approved = false;
    digest = seed_digest host env global_code init_args funding;
    count = 0;
    remaining = 0;
    global_code = global_code;
    init_args = init_args;
    funding = funding;
  }

  -- The call returns the new batch's id.
  unfoldable pub create_batch : AccountId → Bytes → ℕ → RegistrarOpener → Result Error (ℕ × Outcome)
  create_batch global_code init_args funding s = do
    assert_operator env s
    require (leb min_funding funding) Error.funding_too_low
    assert_setup global_code init_args
    require (ltb (length s.batches) max_live_batches) Error.too_many_batches
    let batch_id = s.next_batch_id
    next ← unwrap_or (checked_add u32_max batch_id 1) Error.batch_ids_exhausted
    ok (
      batch_id,
      record {
        state = record s {
          next_batch_id = next;
          batches = IdMap.insert s.batches batch_id (draft global_code init_args funding);
        };
        effects = Effect.emit (Event.batch_created batch_id funding global_code) ∷ [];
      },
    )

  -- A batch with one more name.
  abbrev pub with_name : Batch → AccountId → Batch
  with_name batch name = record batch {
    digest = fold_digest host env batch.digest name;
    count = sat_add u32_max batch.count 1;
    remaining = sat_add u32_max batch.remaining 1;
  }

  -- The loop of `add_names`, over the batch and its stored names.
  unfoldable pub add_all : List AccountId → Batch → IdSet → Result Error (Batch × IdSet)
  add_all [] batch stored = ok (batch, stored)
  add_all (name ∷ names) batch stored = do
    require (not (IdSet.contains stored name)) Error.duplicate_name
    add_all names (with_name batch name) (IdSet.insert stored name)

  -- The call returns the digest.
  unfoldable pub add_names :
      ℕ → List AccountId → RegistrarOpener → Result Error (CryptoHash × Outcome)
  add_names batch_id names s = do
    assert_operator env s
    require (leb (length names) max_names_per_add) Error.too_many_names
    assert_openable host env names
    batch ← batch_mut s batch_id
    require (not batch.approved) Error.batch_is_approved
    added ← add_all names batch (names_of s batch_id)
    ok (
      added.0.digest,
      record {
        state = record s {
          batches = IdMap.insert s.batches batch_id added.0;
          batch_names = IdMap.insert s.batch_names batch_id added.1;
        };
        effects = Effect.emit (Event.names_added batch_id added.0.count added.0.digest) ∷ [];
      },
    )

  -- The stored names stay.
  unfoldable pub discard_batch : ℕ → RegistrarOpener → Result Error Outcome
  discard_batch batch_id s = do
    assert_admin_or_operator env s
    let revoking = env.predecessor_account_id == s.admin
    batch ← batch_mut s batch_id
    require (revoking || batch.remaining == 0 || not batch.approved) Error.batch_live
    ok (record {
      state = record s { batches = IdMap.remove s.batches batch_id };
      effects = Effect.emit (Event.batch_discarded batch_id revoking) ∷ [];
    })

  abbrev pub count_freed : IdSet → AccountId → ℕ → ℕ
  count_freed stored name freed =
      if IdSet.contains stored name then sat_add u32_max freed 1 else freed

  -- The loop of `forget_names`, with the number freed so far.
  unfoldable pub forget_all : List AccountId → IdSet → ℕ → ℕ × IdSet
  forget_all [] stored freed = (freed, stored)
  forget_all (name ∷ names) stored freed =
      forget_all names (IdSet.remove stored name) (count_freed stored name freed)

  -- The call returns how many names it freed.
  unfoldable pub forget_names : ℕ → List AccountId → RegistrarOpener → Result Error (ℕ × Outcome)
  forget_names batch_id names s = do
    assert_admin_or_operator env s
    require (not (is_empty names)) Error.empty_names
    require (leb (length names) max_names_per_add) Error.too_many_names
    require (ltb batch_id s.next_batch_id) Error.no_batch
    require (not (IdMap.contains_key s.batches batch_id)) Error.batch_not_discarded
    let left = forget_all names (names_of s batch_id) 0
    ok (
      left.0,
      record {
        state = record s { batch_names = IdMap.insert s.batch_names batch_id left.1 };
        effects = Effect.emit (Event.names_forgotten batch_id left.0) ∷ [];
      },
    )

  -- A batch with one name less to open.
  abbrev pub one_fewer : Batch → Batch
  one_fewer batch = record batch { remaining = batch.remaining - 1 }

  -- The first loop of `open_names`, over the batch and its stored names.
  unfoldable pub take_all : List AccountId → Batch → IdSet → Result Error (Batch × IdSet)
  take_all [] batch stored = ok (batch, stored)
  take_all (name ∷ names) batch stored = do
    require (IdSet.contains stored name) Error.not_in_batch
    take_all names (one_fewer batch) (IdSet.remove stored name)

  -- The second loop of `open_names`.
  unfoldable pub open_all : ℕ → Batch → List AccountId → List Effect
  open_all batch_id batch [] = []
  open_all batch_id batch (name ∷ names) =
      Effect.emit (Event.opening name (some batch_id))
      ∷ Effect.send (
          Promise.open_account
            (record {
              name = name;
              funding = batch.funding;
              global_code = batch.global_code;
              init_args = batch.init_args;
            })
            (some batch_id))
      ∷ open_all batch_id batch names

  -- The call returns how many names it opens.
  unfoldable pub open_names : ℕ → List AccountId → RegistrarOpener → Result Error (ℕ × Outcome)
  open_names batch_id names s = do
    assert_operator_account env s
    require (leb (length names) max_names_per_call) Error.too_many_names
    assert_openable host env names
    require (leb (sat_mul u64_max gas_per_name (length names)) env.prepaid_gas) Error.gas_too_low
    batch ← batch_mut s batch_id
    require batch.approved Error.batch_not_approved
    require (env.attached_deposit == sat_mul u128_max batch.funding (length names))
        Error.deposit_mismatch
    taken ← take_all names batch (names_of s batch_id)
    ok (
      length names,
      record {
        state = record s {
          batches = IdMap.insert s.batches batch_id taken.0;
          batch_names = IdMap.insert s.batch_names batch_id taken.1;
        };
        effects = open_all batch_id batch names;
      },
    )

  -- The branch of `on_name_opened` that puts a name back into its batch.
  unfoldable pub put_back : ℕ → AccountId → RegistrarOpener → RegistrarOpener
  put_back batch_id name s = elim (IdMap.get s.batches batch_id) [
    | none ↦ s
    | some batch ↦ if IdSet.contains (names_of s batch_id) name then s else record s {
      batches =
          IdMap.insert s.batches batch_id
            (record batch { remaining = sat_add u32_max batch.remaining 1 });
      batch_names = IdMap.insert s.batch_names batch_id (IdSet.insert (names_of s batch_id) name);
    }
  ]

  -- The callback, with the value it returns.
  unfoldable pub on_name_opened : ℕ → AccountId → RegistrarOpener → Bool × Outcome
  unfolding put_back
  on_name_opened batch_id name s =
      if env.promise_success
      then (
        true,
        record {
          state = record s { opened = sat_add u64_max s.opened 1 };
          effects = Effect.emit (Event.opened name (some batch_id)) ∷ [];
        },
      )
      else (
        false,
        record {
          state = put_back batch_id name (record s { failed = sat_add u64_max s.failed 1 });
          effects = Effect.emit (Event.open_failed name batch_id) ∷ [];
        },
      )
