-- ===== src/Opener/Tests.antt =====
-- An opener from its set-up to a batch that is drafted, approved and opened, and each theorem about it.
use tla_contracts.Prelude.{
  ℕ, ◌+◌, ◌*◌, ◌^◌, ◌%◌, ◌≡◌, ◌≢◌, refl, true, false, none, some, List, [], ◌∷◌, Result, ok, err,
  arith, map, inr, zero, suc, ◌≤◌,
}
use tla_contracts.Prelude.IdSet
use tla_contracts.Prelude.IdMap
use tla_contracts.Prelude.Codes.{has_code}
use tla_contracts.Prelude.Wire.{to_le_bytes}
use tla_contracts.Near.{AccountId, Bytes, Env}
use tla_contracts.Opener.Types.{
  Batch, RegistrarOpener, Host, Event, Effect, Error, Outcome, names_of,
}
use tla_contracts.Opener.Names.{assert_openable, assert_top_level, seed_digest, fold_digest}
use tla_contracts.Opener.Batches.{
  create_batch, draft, assert_setup, add_names, add_all, open_names, take_all, open_all,
}
use tla_contracts.Opener.Admin.{approve_batch, new}
use tla_contracts.Opener.Calls
use tla_contracts.Opener.Steps.{fold_names}
use tla_contracts.Opener.Digest.{added_names}
use tla_contracts.Opener.Once.{open_names_once}
use tla_contracts.Opener.Frozen.{IsUnedited, approve_batch_stands}
use tla_contracts.Opener.Payment.{
  open_names-Opens, openings, opening_of, paid_out, AreTopLevel, AreStored,
}
use tla_contracts.Opener.Binding.{IsFaithful, digest_binds}
use tla_contracts.Opener.Invariant.{IsConsistent, receive_all-IsConsistent, new-IsConsistent}

-- A sum of the bytes, in place of the digest.
abbrev checksum : Bytes → ℕ
checksum [] = 7
checksum (b ∷ bytes) = (b + 3 * checksum bytes) % 65_536

-- A receipt on account 1; the text of an account id is four letters and one of its own.
abbrev env_at : AccountId → ℕ → Env
env_at caller deposit = record {
  current_account_id = 1;
  predecessor_account_id = caller;
  block_timestamp = 100;
  attached_deposit = deposit;
  account_balance = 10 ^ 25;
  storage_byte_cost = 10 ^ 19;
  storage_usage = 1000;
  prepaid_gas = 3 * 10 ^ 14;
  used_gas = 0;
  promise_success = false;
  as_str = λ id. 110 ∷ 97 ∷ 109 ∷ 101 ∷ (100 + id % 20) ∷ [];
  sha256 = checksum;
}

abbrev host : Host
host = record {
  to_vec = λ digest. digest % 256 ∷ digest ∷ [];
  is_implicit = λ id. false;
  is_object = λ text. true;
}

abbrev nothing : RegistrarOpener
nothing = record {
  state_version = 0;
  admin = 0;
  pending_admin = none;
  operator = 0;
  batches = [];
  next_batch_id = 0;
  opened = 0;
  failed = 0;
  batch_names = [];
}

abbrev call_of : Result Error (ℕ × Outcome) → ℕ × Outcome
call_of (ok done) = done
call_of (err e) = (0, record { state = nothing; effects = [] })

-- The admin is 10, the operator 20; the account installs itself.
abbrev fresh : RegistrarOpener
fresh = record nothing { state_version = 2; admin = 10; operator = 20 }

abbrev drafting : ℕ × Outcome
drafting = (
  0,
  record {
    state = record fresh {
      batches = (0, draft host (env_at 20 1) 30 (123 ∷ 125 ∷ []) (10 ^ 22)) ∷ [];
      next_batch_id = 1;
    };
    effects = Effect.emit (Event.batch_created 0 (10 ^ 22) 30) ∷ [];
  },
)

create_batch_run : create_batch host (env_at 20 1) 30 (123 ∷ 125 ∷ []) (10 ^ 22) fresh ≡ ok drafting
unfolding create_batch assert_setup IdMap.insert
create_batch_run = refl

-- A draft of the batch 0 with the names 5 and 6.
abbrev batch : Batch
batch = record {
  approved = false;
  digest = 17_128;
  count = 2;
  remaining = 2;
  global_code = 30;
  init_args = 123 ∷ 125 ∷ [];
  funding = 10 ^ 22;
}

abbrev filled : RegistrarOpener
filled = record fresh {
  batches = (0, batch) ∷ [];
  next_batch_id = 1;
  batch_names = (0, 6 ∷ 5 ∷ []) ∷ [];
}

abbrev ready : RegistrarOpener
ready = record filled { batches = (0, record batch { approved = true }) ∷ [] }

-- Drafting and filling the batch, from the set-up.
drafting_run :
    (call_of (add_names host (env_at 20 1) 0 (5 ∷ 6 ∷ []) drafting.1.state)).1.state ≡ filled
unfolding add_names assert_openable assert_top_level add_all fold_digest names_of IdMap.get
    IdMap.insert IdSet.collect IdSet.insert IdSet.contains to_le_bytes seed_digest create_batch
    assert_setup new has_code
drafting_run = refl

-- The batch with the names 5 and 6, once both are sent out.
abbrev emptied : RegistrarOpener
emptied = record ready {
  batches = (0, record batch { approved = true; remaining = 0 }) ∷ [];
  batch_names = (0, []) ∷ [];
}

abbrev opened_both : ℕ × Outcome
opened_both = (
  2,
  record {
    state = emptied;
    effects =
        open_all host (env_at 20 (2 * 10 ^ 22)) 0 (record batch { approved = true }) (5 ∷ 6 ∷ []);
  },
)

open_names_run : open_names host (env_at 20 (2 * 10 ^ 22)) 0 (5 ∷ 6 ∷ []) ready ≡ ok opened_both
unfolding open_names assert_openable assert_top_level take_all names_of IdMap.get IdMap.insert
    IdSet.collect IdSet.insert IdSet.contains IdSet.remove has_code
open_names_run = refl

approve_batch_run :
    approve_batch (env_at 10 1) 0 17_128 filled
    ≡ ok (record { state = ready; effects = Effect.emit (Event.batch_approved 0 2 17_128) ∷ [] })
unfolding approve_batch IdMap.get IdMap.insert
approve_batch_run = refl

-- The callback of the name 5 fails, and the admin nominates 40.
abbrev receipts : List Calls.Receipt
receipts = (env_at 1 0, Calls.name_opened 0 5) ∷ (env_at 10 1, Calls.nominate 40) ∷ []

open_names_once_example :
    open_names host (env_at 20 (10 ^ 22)) 0 (6 ∷ []) (Calls.receive_all host emptied receipts)
    ≢ ok opened_both
unfolding IdSet.contains
open_names_once_example =
    open_names_once host 0 6 (env_at 20 (2 * 10 ^ 22)) (env_at 20 (10 ^ 22)) (5 ∷ 6 ∷ []) (6 ∷ [])
      ready opened_both opened_both receipts (ground arith) open_names_run refl
      (inr (λ e. ground (arith, e)), (tt, tt)) refl

approve_batch_stands_example :
    (b : Batch) × (IdMap.get filled.batches 0 ≡ some b)
    × (b.digest ≡ 17_128)
    × IsUnedited
        (record b { approved = true })
        (IdMap.get (Calls.receive_all host ready receipts).batches 0)
approve_batch_stands_example =
    approve_batch_stands host (env_at 10 1) 0 17_128 filled
      (record { state = ready; effects = Effect.emit (Event.batch_approved 0 2 17_128) ∷ [] })
      receipts (ground arith) approve_batch_run

open_names-Opens_example :
    (b : Batch) × (IdMap.get ready.batches 0 ≡ some b)
    × (b.approved ≡ true)
    × ((env_at 20 0).predecessor_account_id ≡ ready.operator)
    × (openings opened_both.1.effects ≡ map (opening_of b) (5 ∷ 6 ∷ []))
    × (paid_out (openings opened_both.1.effects) ≡ 2 * 10 ^ 22)
    × IdSet.IsNodup (5 ∷ 6 ∷ [])
    × AreTopLevel host (env_at 20 (2 * 10 ^ 22)) (5 ∷ 6 ∷ [])
    × AreStored (names_of ready 0) (5 ∷ 6 ∷ [])
open_names-Opens_example =
    open_names-Opens host (env_at 20 (2 * 10 ^ 22)) 0 (5 ∷ 6 ∷ []) ready opened_both (ground arith)
      open_names_run

fresh_run :
    new (env_at 1 0) false 10 20
    ≡ ok (record { state = fresh; effects = Effect.emit (Event.installed 2 10 20) ∷ [] })
unfolding new
fresh_run = refl

receive_all-IsConsistent_example : IsConsistent 1 (Calls.receive_all host fresh receipts)
receive_all-IsConsistent_example =
    receive_all-IsConsistent host 1 receipts fresh (refl, (refl, tt))
      (new-IsConsistent (env_at 1 0) false 10 20
        (record { state = fresh; effects = Effect.emit (Event.installed 2 10 20) ∷ [] }) fresh_run)

-- The number of ones that end a number in two, and the rest, as one number.
mark : ℕ → ℕ → ℕ
mark zero n = 2 * n + 1
mark (suc k) n = 2 * mark k n

mark_injective : (k l m n : ℕ) → mark k m ≡ mark l n → (k ≡ l) × (m ≡ n)
unfolding mark
mark_injective zero zero m n e = omega arith
mark_injective zero (suc l) m n e = absurd (omega arith)
mark_injective (suc k) zero m n e = absurd (omega arith)
mark_injective (suc k) (suc l) m n e = let r = mark_injective k l m n (omega arith) in omega arith

mark_positive : (k n : ℕ) → 1 ≤ mark k n
unfolding mark
mark_positive zero n = omega arith
mark_positive (suc k) n = omega (arith, mark_positive k n)

-- A digest without collisions.
encode : Bytes → ℕ
encode [] = 0
encode (b ∷ bytes) = mark b (encode bytes)

encode_injective : (a b : Bytes) → encode a ≡ encode b → a ≡ b
unfolding encode
encode_injective [] [] e = refl
encode_injective [] (y ∷ b) e = absurd (omega (arith, mark_positive y (encode b)))
encode_injective (x ∷ a) [] e = absurd (omega (arith, mark_positive x (encode a)))
encode_injective (x ∷ a) (y ∷ b) e =
    let r = mark_injective x y (encode a) (encode b) e in
    ground (arith, r.0, encode_injective a b r.1)

abbrev exact : Env
exact = record (env_at 20 1) { as_str = λ id. 110 ∷ 97 ∷ 109 ∷ id ∷ []; sha256 = encode }

abbrev single : Host
single = record host { to_vec = λ digest. digest ∷ [] }

exact-IsFaithful : IsFaithful single exact
exact-IsFaithful = record {
  sha256 = encode_injective;
  as_str = λ a b e. ground (arith, e);
  short = λ a. omega arith;
  to_vec = λ a b e. ground (arith, e);
  wide = λ a b. refl;
}

abbrev drafted : ℕ × Outcome
drafted = (
  0,
  record {
    state = record fresh {
      batches = (0, draft single exact 30 (123 ∷ 125 ∷ []) (10 ^ 22)) ∷ [];
      next_batch_id = 1;
    };
    effects = Effect.emit (Event.batch_created 0 (10 ^ 22) 30) ∷ [];
  },
)

drafted_run : create_batch single exact 30 (123 ∷ 125 ∷ []) (10 ^ 22) fresh ≡ ok drafted
unfolding create_batch assert_setup IdMap.insert
drafted_run = refl

-- The names 5 and 6 in one call, or in two.
abbrev at_once : List Calls.Receipt
at_once = (exact, Calls.add 0 (5 ∷ 6 ∷ [])) ∷ []

abbrev apart : List Calls.Receipt
apart = (exact, Calls.add 0 (5 ∷ [])) ∷ (exact, Calls.add 0 (6 ∷ [])) ∷ []

abbrev five_six : Batch
five_six = record batch {
  digest =
      fold_names single exact (seed_digest single exact 30 (123 ∷ 125 ∷ []) (10 ^ 22)) (5 ∷ 6 ∷ []);
}

digest_binds_example :
    (◌≡◌ {A = ℕ} 30 30)
    × (◌≡◌ {A = Bytes} (123 ∷ 125 ∷ []) (123 ∷ 125 ∷ []))
    × (◌≡◌ {A = ℕ} (10 ^ 22) (10 ^ 22))
    × (added_names single exact 0 drafted.1.state at_once
        ≡ added_names single exact 0 drafted.1.state apart)
    × (◌≡◌ {A = ℕ} 30 30)
    × (◌≡◌ {A = Bytes} (123 ∷ 125 ∷ []) (123 ∷ 125 ∷ []))
    × (◌≡◌ {A = ℕ} (10 ^ 22) (10 ^ 22))
unfolding Calls.receive_all Calls.receive added_names fold_names add_names add_all assert_openable
    assert_top_level fold_digest seed_digest IdMap.get IdMap.insert IdSet.contains IdSet.insert
    IdSet.collect has_code names_of
digest_binds_example =
    digest_binds single exact exact 30 30 (123 ∷ 125 ∷ []) (123 ∷ 125 ∷ []) (10 ^ 22) (10 ^ 22)
      fresh fresh drafted drafted at_once apart five_six five_six exact-IsFaithful (refl, refl)
      (omega arith, omega arith) drafted_run drafted_run ((refl, refl), tt)
      ((refl, refl), ((refl, refl), tt)) refl refl refl refl
