-- ===== src/Lib.antt =====
-- House of Stake TLA contracts: top-level accounts on NEAR whose sub-accounts are leased.
--
-- The program. A leased account runs the tenant wallet (contracts/hos-wallet), built on an upstream
-- wallet contract. Its extension set names who may call `w_execute_extension`: the authority, which is
-- the contract that leases the account out, the owner, and delegates, whose spending a grant meters.
-- The lease ledger (contracts/tla-registry) prices a lease in USD and quotes it in NEAR. The deployer
-- (contracts/wallet-impl-deployer) publishes the code that every leased account refers to, so its
-- council and the delay of its approvals guard all of them. The opener (contracts/registrar-opener)
-- opens top-level accounts, from batches of names that an operator drafts and an admin approves by
-- their digest. On each of them runs the registrar (contracts/registrar), which mints a sub-account with
-- a wallet on it whenever the registry asks. The registry reaches a leased account through the extension
-- (contracts/hos-extension), which is the account's authority; after a change of owner the extension has
-- the recovery contract (contracts/mpc-recovery) reset the account's policy. A policy lets an account be
-- recovered by an attested request, a timelock and a quorum of watchers: a leased name by a call of the
-- registry, a native account by a key that the MPC signer adds. crates/hos-common holds what the
-- contracts share.
--
-- The files.
--   Prelude     shared notation: Booleans on the native numbers, panics as a result type, machine
--               words, text as code points, BTreeSet and LookupSet as IdSet, BTreeMap as IdMap, numbers
--               and texts as bytes (Wire), and the pigeonhole bound of sets (Counting).
--   Near        what a contract reads of the host during one receipt, as the record `Env`.
--   HosCommon   crates/hos-common/src/lib.rs: OperatingState, RotationCause and its predicates,
--               MintOutcome.
--   Succession  the succession to an office in two steps, as an inductive relation on what one call may
--               do and on sequences of calls: the abstract specification of the councils and the treasury.
--   Wallet      contracts/hos-wallet/src. Types has the record TenantWallet with the source's fields,
--               the errors, the logs and the promises. Guards has the checks. Each entry point has its
--               own name: Execute (w_execute_extension, execute_request, execute_op), Charge
--               (charge_spend and what it calls), Grants (hos_grant_spend, hos_revoke_spend), Rotation
--               (hos_transfer_ownership, hos_re_rent, apply_rotation, which is open_gate and then
--               rotate), Freeze, Lease, Sweep, Impl (the pin of the implementation), Init (hos_init,
--               hos_migrate) and Views. Calls has every call as a constructor of Call, and run_call.
--               The other children prove: Invariant (validity), Spending, Charge/Metering,
--               Charge/Spending and Charge/Fence (delegates), Custody and Revert (rotations), Tenure (the lease's end),
--               Holds (freezes), Pinning and Naming.
--   Registry    contracts/tla-registry/src. Pricing has pricing.rs; Quotes and Rates prove. Ledger has the
--               entries (Types) and the names (Labels) of types.rs, lifecycle.rs (Lifecycle, with the time
--               as an argument), fees.rs (Fees) and indexes.rs (Indexes, on the fields that it writes);
--               Lifecycle, Labels and Consistency prove.
--   Deployer    contracts/wallet-impl-deployer/src: Types, Publish (gd_approve, gd_deploy and its
--               callback), Upgrade, Council, Calls; Approval and Succession prove.
--   Opener      contracts/registrar-opener/src: Types, Names (assert_openable, seed_digest, fold_digest),
--               Batches (create_batch, add_names, discard_batch, forget_names, open_names and its
--               callback), Admin, Calls; Stored and Steps have what the loops and the calls do to a
--               batch, and Once, Digest, Binding, Frozen, Payment and Invariant prove. The names stored for a
--               batch id are the field batch_names, apart from the batch, which they outlive.
--   Registrar   contracts/registrar/src: Types, Mint (new, create_sub_account, on_minted), Council
--               (set_min_balance, the rotation, upgrade_self, seal, migrate), Calls; Offices and Handoff
--               prove, Handoff together with the wallet's hos_init.
--   Extension   contracts/hos-extension/src: Types, Council (both rotations, pause, admins), Upgrade (new,
--               approve_upgrade, upgrade, seal, skim, migrate), Lease (push_lease, retract_lease,
--               set_payout, migrate_wallet), Rotation (force_transfer, re_rent, the reset of a recovery
--               policy), Sweep (the chain of sweep_ft), Calls; Offices, Authority, Resets and Payouts
--               prove. IterableSet<PendingSweep> is a list read by membership.
--   Recovery    contracts/mpc-recovery/src: Types (with state.rs), Proofs (proof.rs), Tx (tx.rs),
--               Governance (the owner's methods), Policies (arming, installing and resetting a policy),
--               Native (request_recovery to claim_native_finalized), Names (request_name_recovery to
--               claim_name_finalized), Calls. LookupMap is an IdMap. Quorum, Messages, Hex, Rounds and
--               Warrants with its children prove.
--
-- How it is modelled. A call takes the receipt's `Env` and the state, and gives `err` for a panic, which
-- rolls the receipt back, or `ok` with the new state and the list of logs and promises in their order.
-- A sequence of receipts is a list of pairs of an `Env` and a call, folded by `receive_all`; a receipt
-- that panics leaves the state. Callbacks are calls of their own, so that others may run between a
-- promise and its callback, in any order. Account ids, token ids and hashes are only compared, and are
-- numbers; where the text of an account id counts it is `Env.as_str`. Amounts are native numbers with
-- the source's saturating or checked operation written out at the width of its word, u32, u64 or u128.
-- All loops are structural recursion on lists, so there is no fuel; only the payments of a token sweep
-- in Extension/Payouts follow a chain of callbacks to a depth, of which five are enough.
--
-- Parameters. `Upstream` stands for the upstream wallet crate and the JSON reader: the test whether an
-- account is an extension, the nonces and their cleaning, the total of a promise's deposits, and the
-- decoding of call arguments and authorizations. `Env.sha256` is the
-- host's digest. `Host` has what the opener uses of its libraries: the bytes of a digest, the kind of an
-- account id, and the reading of JSON. `Keys` has what the recovery contract uses of its libraries: the
-- bytes and the curve of a key, ed25519, the digest as bytes and the parsing of an account id, which the
-- registrar takes as an argument. What a hypothesis asks of these is stated with the theorem: that a
-- parsed account id shows the text, that account ids and keys are determined by their bytes, that the
-- opener's digest has no collisions, and that the deposit of plain transfers is the sum of their amounts. The
-- state that Borsh reads from storage is an argument of the migrations, and so is what a promise came
-- to of a callback.
--
-- Not modelled: plain getters, gas but for the guards of the pin and of `open_names`; of
-- contracts/tla-registry all but its pricing, the ledger's entries and their indexes: renting, reclaiming
-- and the collection are large parts of their own;
-- contracts/registrar-opener-wipe, dev-contracts, tools and scripts, which are host input and output; the
-- tests.
pub mod Prelude
pub mod Near
pub mod HosCommon
pub mod Succession
pub mod Wallet
pub mod Registrar
pub mod Registry
pub mod Deployer
pub mod Opener
pub mod Extension
pub mod Recovery
