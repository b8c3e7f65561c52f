-- ===== src/Wallet/Holds.antt =====
-- contracts/hos-wallet/src/lib.rs: how long the authority can hold an account, and who lifts the
-- owner's own freeze.
use tla_contracts.Prelude.{
  ◌↔◌, ◌*◌, ◌+◌, ◌≤◌, ◌<◌, ltb, leb, Bool-cases, if◌then◌else◌, sat_add, u64_max, ◌≡◌, ◌≢◌, inl,
  inr, ◌⊎◌, Option, none, some, List, [], ◌∷◌, ok, arith, Result-cases,
}
use tla_contracts.Near.{AccountId, Env}
use tla_contracts.HosCommon.{RotationCause, OperatingState}
use tla_contracts.Wallet.Types.{TenantWallet, Outcome, Upstream, ItemStatus, WalletOp, NearPromise}
use tla_contracts.Wallet.Guards.{
  effective_frozen, lease_expired, blocking_condition, assert_renter_active,
}
use tla_contracts.Wallet.Types.{FreezeState}
use tla_contracts.Wallet.Invariant.{Ensures, Ensures-map, Ensures-ok}
use tla_contracts.HosCommon.{max_authority_hold_ns}
use tla_contracts.Wallet.Calls
use tla_contracts.Wallet.Grants.{hos_grant_spend, hos_revoke_spend}
use tla_contracts.Wallet.Execute.{w_execute_extension}
use tla_contracts.Wallet.Lease.{hos_set_payout_account, hos_set_lease, hos_retract_lease}
use tla_contracts.Wallet.Freeze.{hos_freeze, hos_unfreeze}
use tla_contracts.Wallet.Rotation.{
  open_gate, rotate, apply_rotation, hos_transfer_ownership, hos_re_rent,
}
use tla_contracts.Wallet.Sweep.{hos_sweep_near, hos_sweep_ft, hos_resolve_sweep}
use tla_contracts.Wallet.Impl.{hos_approve_impl, hos_cancel_impl, hos_pin_impl, hos_on_pinned}
use tla_contracts.Wallet.Spending.{w_execute_extension-SameTerms}
use tla_contracts.Wallet.Spending.Conditions.{execute_extension-MaySpend}

-- The end of the last authority freeze fits its word.
abbrev Fits : TenantWallet → Type 0
Fits w = w.authority_freeze_until_ns ≤ u64_max

-- What a call does to the two freezes: the authority's end never moves back, and the owner's own
-- freeze is lifted only by the owner or by a move to another owner.
record Holds (env : Env) (w s : TenantWallet) : Type 0 where
  pub until : Fits w → (w.authority_freeze_until_ns ≤ s.authority_freeze_until_ns) × Fits s
  pub own :
      w.frozen ≡ FreezeState.self_frozen
      → (s.frozen ≡ FreezeState.self_frozen)
        ⊎ (s.owner ≢ w.owner)
        ⊎ ((env.predecessor_account_id ≡ w.owner) × (env.predecessor_account_id ≢ w.authority))

module _ (env : Env) where
  freeze-Holds : (w : TenantWallet) → Ensures (Holds env w) (hos_freeze env w)
  unfolding hos_freeze effective_frozen
  freeze-Holds w = ground arith

  unfreeze-Holds : (w : TenantWallet) → Ensures (Holds env w) (hos_unfreeze env w)
  unfolding hos_unfreeze effective_frozen
  unfreeze-Holds w = ground arith

  rotate-Holds :
      (to : Option AccountId) (c : RotationCause) (w : TenantWallet)
      → Ensures (Holds env w) (rotate env to c w)
  unfolding rotate
  rotate-Holds none c w = ground arith
  rotate-Holds (some next) c w = ground arith

  open_gate-Holds :
      (to : Option AccountId) (c : RotationCause) (asked_by : Option AccountId)
      (w w' s : TenantWallet)
      → open_gate env to c asked_by w ≡ ok w'
      → Holds env w' s
      → Holds env w s
  unfolding open_gate
  open_gate-Holds to c asked_by w w' s e h = ground arith

  apply_rotation-Holds :
      (to : Option AccountId) (c : RotationCause) (asked_by : Option AccountId) (w : TenantWallet)
      → Ensures (Holds env w) (apply_rotation env to c asked_by w)
  unfolding apply_rotation
  apply_rotation-Holds to c asked_by w = elim (Result-cases (open_gate env to c asked_by w)) [
    | inl (w', e) ↦ rw e (
        Ensures-map (rotate env to c w') (λ s. open_gate-Holds to c asked_by w w' s e)
          (rotate-Holds to c w'))
    | inr (x, e) ↦ rw e tt
  ]

module _ (up : Upstream) where
  run_call-Holds :
      (env : Env) (call : Calls.Call) (w : TenantWallet)
      → Ensures (Holds env w) (Calls.run_call up env call w)
  unfolding Calls.run_call hos_grant_spend hos_revoke_spend hos_set_payout_account hos_approve_impl
      hos_cancel_impl hos_pin_impl hos_sweep_near hos_on_pinned hos_set_lease hos_retract_lease
      hos_transfer_ownership hos_re_rent hos_sweep_ft hos_resolve_sweep
  run_call-Holds env Calls.execute_signed w = tt
  run_call-Holds env (Calls.execute_extension request) w =
      Ensures-map (w_execute_extension env up request w) (λ s same. ground arith)
        (w_execute_extension-SameTerms env up request w)
  run_call-Holds env (Calls.grant_spend d r b t i x) w = ground arith
  run_call-Holds env (Calls.revoke_spend d) w = ground arith
  run_call-Holds env (Calls.set_payout_account p o) w = ground arith
  run_call-Holds env (Calls.approve_impl h) w = ground arith
  run_call-Holds env Calls.cancel_impl w = ground arith
  run_call-Holds env Calls.pin_impl w = ground arith
  run_call-Holds env Calls.freeze w = freeze-Holds env w
  run_call-Holds env Calls.unfreeze w = unfreeze-Holds env w
  run_call-Holds env Calls.sweep_near w = ground arith
  run_call-Holds env (Calls.on_pinned h at) w = ground arith
  run_call-Holds env (Calls.set_lease until s) w = ground arith
  run_call-Holds env (Calls.retract_lease until) w = ground arith
  run_call-Holds env (Calls.transfer_ownership to c asked) w =
      ground (arith, apply_rotation-Holds env to c asked w)
  run_call-Holds env (Calls.re_rent to p until) w =
      ground (arith, apply_rotation-Holds env (some to) RotationCause.re_rent none w)
  run_call-Holds env (Calls.sweep_ft ft amount) w = ground arith
  run_call-Holds env (Calls.resolve_sweep p ft amount) w = ground arith

  -- A freeze that the owner has set stands through any call, unless the owner's own call lifts it or
  -- the account moves to another owner; the authority cannot lift it.
  pub own_freeze_stands :
      (env : Env) (call : Calls.Call) (w : TenantWallet) (done : Outcome)
      → w.frozen ≡ FreezeState.self_frozen
      → Calls.run_call up env call w ≡ ok done
      → (done.state.frozen ≡ FreezeState.self_frozen)
        ⊎ (done.state.owner ≢ w.owner)
        ⊎ ((env.predecessor_account_id ≡ w.owner) × (env.predecessor_account_id ≢ w.authority))
  own_freeze_stands env call w done h e =
      (Ensures-ok (Holds env w) (run_call-Holds env call w) e).own h

  receive-until :
      (r : Calls.Receipt) (w : TenantWallet)
      → Fits w
      → (w.authority_freeze_until_ns ≤ (Calls.receive up w r).authority_freeze_until_ns)
        × Fits (Calls.receive up w r)
  unfolding Calls.receive
  receive-until (env, call) w fits = elim (Result-cases (Calls.run_call up env call w)) [
    | inl (done, e) ↦ rw (e, Calls.receive) ((rw e at (run_call-Holds env call w)).until fits)
    | inr (x, e) ↦ rw (e, Calls.receive) (omega arith, fits)
  ]

  receive_all-until :
      (rs : List Calls.Receipt) (w : TenantWallet)
      → Fits w
      → (w.authority_freeze_until_ns ≤ (Calls.receive_all up w rs).authority_freeze_until_ns)
        × Fits (Calls.receive_all up w rs)
  unfolding Calls.receive_all
  receive_all-until [] w fits = omega arith
  receive_all-until (r ∷ rs) w fits = omega (
    arith,
    receive-until r w fits,
    receive_all-until rs (Calls.receive up w r) (receive-until r w fits).1,
  )

  -- The end of a hold that the authority has set.
  freeze_by_authority :
      (env : Env) (w : TenantWallet) (done : Outcome)
      → hos_freeze env w ≡ ok done
      → env.predecessor_account_id ≡ w.authority
      → (sat_add u64_max w.authority_freeze_until_ns max_authority_hold_ns ≤ env.block_timestamp)
        × (done.state.authority_freeze_until_ns
            ≡ sat_add u64_max env.block_timestamp max_authority_hold_ns)
        × (done.state.frozen ≡ FreezeState.authority_frozen)
  unfolding hos_freeze
  freeze_by_authority env w done h caller = ground arith

  -- Between two freezes by the authority lie at least fourteen days, the seven of the hold and the
  -- seven of the cooldown, whatever receipts come between them.
  pub authority_freeze_gap :
      (first second : Env) (w : TenantWallet) (done again : Outcome) (rs : List Calls.Receipt)
      → hos_freeze first w ≡ ok done
      → first.predecessor_account_id ≡ w.authority
      → hos_freeze second (Calls.receive_all up done.state rs) ≡ ok again
      → second.predecessor_account_id ≡ (Calls.receive_all up done.state rs).authority
      → first.block_timestamp + 2 * max_authority_hold_ns ≤ u64_max
      → first.block_timestamp + 2 * max_authority_hold_ns ≤ second.block_timestamp
  authority_freeze_gap first second w done again rs h caller k caller' fits = omega (
    arith,
    freeze_by_authority first w done h caller,
    receive_all-until rs done.state,
    freeze_by_authority second (Calls.receive_all up done.state rs) again k caller',
  )

-- A freeze by the authority of an account that is active stops the renter for seven days and no longer,
-- while the lease runs: at every time before the seventh day is over the account is blocked as frozen,
-- and a request that sends anything is refused, and at none after.
pub authority_freeze_lapses :
    (up : Upstream) (env later : Env) (w : TenantWallet) (done again : Outcome)
    (internal : List WalletOp) (p : NearPromise) (ps : List NearPromise)
    → hos_freeze env w ≡ ok done
    → env.predecessor_account_id ≡ w.authority
    → env.block_timestamp + max_authority_hold_ns ≤ u64_max
    → w.state ≡ OperatingState.active
    → later.block_timestamp < w.lease_until_ns
    → ((assert_renter_active later done.state ≡ ok tt)
        ↔ (env.block_timestamp + max_authority_hold_ns ≤ later.block_timestamp))
      × (blocking_condition later done.state ≡ (
          if ltb later.block_timestamp (env.block_timestamp + max_authority_hold_ns)
          then some ItemStatus.frozen
          else none))
      × ((env.block_timestamp + max_authority_hold_ns ≤ later.block_timestamp)
          ⊎ (w_execute_extension later up
                (record { internal = internal; external = p ∷ ps })
                done.state
              ≢ ok again))
unfolding assert_renter_active blocking_condition lease_expired effective_frozen hos_freeze
authority_freeze_lapses up env later w done again internal p ps h caller fits active running = (
  (λ k. ground arith, λ k. ground arith),
  ground arith,
  elim (Bool-cases (leb (env.block_timestamp + max_authority_hold_ns) later.block_timestamp)) [
    | inl over ↦ inl (ground (arith, over))
    | inr early ↦ inr (λ e. absurd (
        ground (
          arith,
          early,
          (execute_extension-MaySpend up later internal p ps done.state again e).thawed,
        )))
  ],
)
