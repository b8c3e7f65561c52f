-- ===== src/Wallet/Custody.antt =====
-- contracts/hos-wallet/src/lib.rs: who may move a leased account to another owner, and what the move
-- leaves.
use tla_contracts.Prelude.{
  ℕ, ◌-◌, ◌≤◌, ◌<◌, not, ◌&&◌, ◌||◌, same_option, sat_add, u64_max, ◌≡◌, ◌≢◌, refl, subst, inl, inr,
  Bool, true, false, Option, none, some, List, [], ◌∷◌, ok, arith, Bool-cases, Option-cases,
  Result-cases, ◌==◌, if◌then◌else◌,
}
use tla_contracts.Prelude.IdSet
use tla_contracts.Prelude.IdMap
use tla_contracts.Prelude.IdMap.{IdMap}
use tla_contracts.Prelude.IdSet.{IdSet}
use tla_contracts.Near.{AccountId, Env}
use tla_contracts.HosCommon.{OperatingState, RotationCause, is_revert}
use tla_contracts.Wallet.Types.{TenantWallet, Outcome, Effect}
use tla_contracts.Wallet.Guards.{effective_frozen, reserve}
use tla_contracts.Wallet.Types.{FreezeState, Promise, revert_window_ns}
use tla_contracts.HosCommon.{parks, repoints_payout, sweeps}
use tla_contracts.Wallet.Rotation.{open_gate, rotate, apply_rotation, hos_transfer_ownership}
use tla_contracts.Wallet.Sweep.{sweep_to, sweep_amount}

-- What a rotation asks for, by its cause.
abbrev pub Gate : Env → TenantWallet → Option AccountId → Option AccountId → RotationCause → Type 0
Gate env w to asked_by RotationCause.revert =
    (w.revert_to ≢ none) × (to ≡ w.revert_to) × (env.block_timestamp < w.revert_until_ns)
Gate env w to asked_by RotationCause.reclaim = w.lease_until_ns ≤ env.block_timestamp
Gate env w to asked_by RotationCause.re_rent = ⊥
Gate env w to asked_by RotationCause.recovery = effective_frozen env w ≢ FreezeState.self_frozen
Gate env w to asked_by _ =
    (holder : AccountId) × (asked_by ≡ some holder)
    × (holder ≢ w.authority)
    × (IdSet.contains w.wallet.extensions holder ≡ true)

-- `hos_transfer_ownership` succeeds only for the authority, and only through the gate of its cause: a
-- sale, a transfer or a deposit was asked for by a holder other than the authority, a reclaim comes
-- after the lease has ended, a recovery does not override the owner's freeze, and a revert returns
-- the account to where it came from while its window is open.
pub transfer_ownership-Gate :
    (env : Env) (to : Option AccountId) (c : RotationCause) (asked_by : Option AccountId)
    (w : TenantWallet) (done : Outcome)
    → hos_transfer_ownership env to c asked_by w ≡ ok done
    → (env.predecessor_account_id ≡ w.authority) × Gate env w to asked_by c
unfolding hos_transfer_ownership apply_rotation open_gate
transfer_ownership-Gate env to RotationCause.sale none w done h = absurd (ground arith)
transfer_ownership-Gate env to RotationCause.sale (some k) w done h =
    (ground arith, (k, refl, ground arith, ground arith))
transfer_ownership-Gate env to RotationCause.transfer none w done h = absurd (ground arith)
transfer_ownership-Gate env to RotationCause.transfer (some k) w done h =
    (ground arith, (k, refl, ground arith, ground arith))
transfer_ownership-Gate env to RotationCause.deposit none w done h = absurd (ground arith)
transfer_ownership-Gate env to RotationCause.deposit (some k) w done h =
    (ground arith, (k, refl, ground arith, ground arith))
transfer_ownership-Gate env to RotationCause.re_rent asked_by w done h = absurd (ground arith)
transfer_ownership-Gate env to RotationCause.reclaim asked_by w done h = ground arith
transfer_ownership-Gate env to RotationCause.recovery asked_by w done h = ground arith
transfer_ownership-Gate env to RotationCause.revert asked_by w done h = ground arith

abbrev new_owner : Option AccountId → AccountId → AccountId
new_owner none old = old
new_owner (some next) old = next

abbrev is_target : Option AccountId → AccountId → Bool
is_target none k = false
is_target (some next) k = k == next

abbrev new_payout : Option AccountId → RotationCause → AccountId → AccountId
new_payout none c old = old
new_payout (some next) c old = if repoints_payout c then next else old

-- The promises among a call's effects.
abbrev pub sends : List Effect → List Promise
sends [] = []
sends (Effect.emit e ∷ rest) = sends rest
sends (Effect.send p ∷ rest) = p ∷ sends rest

-- Whether a move by this cause empties the account.
abbrev empties : RotationCause → Bool
empties RotationCause.sale = true
empties RotationCause.transfer = true
empties RotationCause.deposit = true
empties RotationCause.reclaim = true
empties RotationCause.re_rent = true
empties RotationCause.recovery = false
empties RotationCause.revert = false

-- What of the account's NEAR can leave: not the deposit of this call, and not the reserve.
abbrev available : Env → ℕ
available env = env.account_balance - env.attached_deposit - reserve env

-- What an account that a move empties sends to the former payout account: all that can leave, unless that
-- account is the new owner or the account itself, or nothing can leave.
abbrev emptied : Env → TenantWallet → Option AccountId → List Promise
emptied env w to =
    if is_target to w.payout_account
      || w.payout_account == env.current_account_id
      || available env == 0
    then []
    else Promise.sweep_near w.payout_account (available env) ∷ []

-- What a rotation leaves.
pub record Rotated (env : Env) (w : TenantWallet) (to : Option AccountId) (c : RotationCause)
    (done : Outcome) : Type 0 where
  pub owner : done.state.owner ≡ new_owner to w.owner
  pub extensions :
      (k : AccountId)
      → IdSet.contains done.state.wallet.extensions k ≡ (
          is_target to k
          || (if k == w.authority then IdSet.contains w.wallet.extensions k else false))
  pub grants : (k : AccountId) → IdMap.get done.state.spend_grants k ≡ none
  pub authority : done.state.authority ≡ w.authority
  pub lease : done.state.lease_until_ns ≡ w.lease_until_ns
  pub payout : done.state.payout_account ≡ new_payout to c w.payout_account
  pub parked : done.state.state ≡ (if parks c then OperatingState.parked else w.state)
  pub seq : done.state.rotation_seq ≡ sat_add u64_max w.rotation_seq 1
  pub swept : sends done.effects ≡ (if empties c then emptied env w to else [])

sends-sweep_to :
    (env : Env) (w : TenantWallet) (to : Option AccountId) (c : RotationCause)
    → (if sweeps c && not (same_option to (some w.payout_account))
        then sends (sweep_to env w.payout_account)
        else [])
      ≡ (if empties c then emptied env w to else [])
unfolding sweep_to sweep_amount
sends-sweep_to env w none c = ground arith
sends-sweep_to env w (some next) c = ground arith

module _ (env : Env) (c : RotationCause) (w : TenantWallet) (done : Outcome) where
  rotate-Rotated : (to : Option AccountId) → rotate env to c w ≡ ok done → Rotated env w to c done
  unfolding rotate IdMap.get
  rotate-Rotated none h = record {
    owner = ground arith;
    extensions = λ k. ground (arith, IdSet.contains-retain_eq w.wallet.extensions w.authority k);
    grants = λ k. ground arith;
    authority = ground arith;
    lease = ground arith;
    payout = ground arith;
    parked = ground arith;
    seq = ground arith;
    swept = ground (arith, sends-sweep_to env w none c);
  }
  rotate-Rotated (some next) h = record {
    owner = ground arith;
    extensions = λ k. ground (
      arith,
      IdSet.contains-retain_eq w.wallet.extensions w.authority k,
      IdSet.contains-insert (IdSet.retain_eq w.wallet.extensions w.authority) next k,
    );
    grants = λ k. ground arith;
    authority = ground arith;
    lease = ground arith;
    payout = ground arith;
    parked = ground arith;
    seq = ground arith;
    swept = ground (arith, sends-sweep_to env w (some next) c);
  }

-- The wallet with another revert window.
abbrev windowed : TenantWallet → Option AccountId → ℕ → TenantWallet
windowed w to until = record w { revert_to = to; revert_until_ns = until }

open_gate-windowed :
    (env : Env) (to : Option AccountId) (c : RotationCause) (asked_by : Option AccountId)
    (w w' : TenantWallet)
    → open_gate env to c asked_by w ≡ ok w'
    → w' ≡ (
        if is_revert c
        then windowed w none 0
        else windowed w (some w.owner) (sat_add u64_max env.block_timestamp revert_window_ns))
unfolding open_gate
open_gate-windowed env to c asked_by w w' h = ground arith

module _ (env : Env) (to : Option AccountId) (c : RotationCause) (w : TenantWallet) where
  Rotated-windowed :
      (r : Option AccountId) (until : ℕ) (done : Outcome)
      → Rotated env (windowed w r until) to c done
      → Rotated env w to c done
  Rotated-windowed r until done m = record {
    owner = m.owner;
    extensions = m.extensions;
    grants = m.grants;
    authority = m.authority;
    lease = m.lease;
    payout = m.payout;
    parked = m.parked;
    seq = m.seq;
    swept = m.swept;
  }

  rotate-window :
      (done : Outcome)
      → rotate env to c w ≡ ok done
      → (done.state.revert_to ≡ w.revert_to) × (done.state.revert_until_ns ≡ w.revert_until_ns)
  unfolding rotate
  rotate-window done h = elim (Option-cases to) [
    | inl e ↦ ground (arith, e)
    | inr (next, e) ↦ ground (arith, e)
  ]

-- The window in which a rotation can be reverted; a revert closes it.
abbrev pub Window : Env → TenantWallet → RotationCause → TenantWallet → Type 0
Window env w c s =
    (s.revert_to ≡ (if is_revert c then none else some w.owner))
    × (s.revert_until_ns
        ≡ (if is_revert c then 0 else sat_add u64_max env.block_timestamp revert_window_ns))

module _ (env : Env) (to : Option AccountId) (asked_by : Option AccountId) (w : TenantWallet)
    (done : Outcome) where
  -- Through a gate that left this window.
  gated-Rotated :
      (c : RotationCause) (w' : TenantWallet) (r : Option AccountId) (until : ℕ)
      → w' ≡ windowed w r until
      → rotate env to c w' ≡ ok done
      → Rotated env w to c done × (done.state.revert_to ≡ r) × (done.state.revert_until_ns ≡ until)
  gated-Rotated c w' r until e h =
      let k = subst (λ x. rotate env to c x ≡ ok done) e h in
      let window = rotate-window env to c (windowed w r until) done k in
      (
        Rotated-windowed env to c w r until done
            (rotate-Rotated env c (windowed w r until) done to k),
        window.0,
        window.1,
      )

  opened-Rotated :
      (c : RotationCause) (w' : TenantWallet)
      → w' ≡ (
          if is_revert c
          then windowed w none 0
          else windowed w (some w.owner) (sat_add u64_max env.block_timestamp revert_window_ns))
      → rotate env to c w' ≡ ok done
      → Rotated env w to c done × Window env w c done.state
  opened-Rotated c w' e h = elim (Bool-cases (is_revert c)) [
    | inl q ↦ let m = gated-Rotated c w' none 0 (rw q at e) h in (m.0, rw q (m.1, m.2))
    | inr q ↦
        let m =
          gated-Rotated c w' (some w.owner) (sat_add u64_max env.block_timestamp revert_window_ns)
            (rw q at e) h in
        (m.0, rw q (m.1, m.2))
  ]

  pub apply_rotation-Rotated :
      (c : RotationCause)
      → apply_rotation env to c asked_by w ≡ ok done
      → Rotated env w to c done × Window env w c done.state
  unfolding apply_rotation
  apply_rotation-Rotated c h = elim (Result-cases (open_gate env to c asked_by w)) [
    | inl (w', e) ↦
        opened-Rotated c w' (open_gate-windowed env to c asked_by w w' e) (ground (arith, e))
    | inr (x, e) ↦ absurd (ground (arith, e))
  ]

  -- A rotation that succeeds seats the new owner beside the authority and no one else, drops every
  -- grant, counts one more rotation, keeps the lease, moves the payout account exactly as its cause
  -- says, and opens (or, for a revert, closes) the
  -- window in which it can be reverted. What it sends is, unless its cause is a recovery or a revert, all
  -- the NEAR above the reserve and the deposit of the call, to the payout account of before, if that is
  -- neither the new owner nor the account itself; and otherwise nothing.
  pub transfer_ownership-Rotated :
      (c : RotationCause)
      → hos_transfer_ownership env to c asked_by w ≡ ok done
      → Rotated env w to c done × Window env w c done.state
  unfolding hos_transfer_ownership
  transfer_ownership-Rotated c h = apply_rotation-Rotated c (ground arith)
