-- ===== src/Wallet/Tenure.antt =====
-- contracts/hos-wallet/src/lib.rs: how long a lease is safe from being cut short.
use tla_contracts.Prelude.{
  ℕ, ◌≤◌, sat_add, u64_max, ◌≡◌, inl, inr, ◌⊎◌, Option, none, some, List, [], ◌∷◌, ok, arith,
  Result-cases,
}
use tla_contracts.Near.{AccountId, Env}
use tla_contracts.HosCommon.{RotationCause}
use tla_contracts.Wallet.Types.{TenantWallet, Upstream}
use tla_contracts.Wallet.Invariant.{Ensures, Ensures-map}
use tla_contracts.HosCommon.{min_lease_retract_notice_ns}
use tla_contracts.Wallet.Calls
use tla_contracts.Wallet.Grants.{hos_grant_spend, hos_revoke_spend}
use tla_contracts.Wallet.Execute.{w_execute_extension}
use tla_contracts.Wallet.Lease.{hos_set_payout_account, hos_set_lease, hos_retract_lease}
use tla_contracts.Wallet.Freeze.{hos_freeze, hos_unfreeze}
use tla_contracts.Wallet.Rotation.{
  open_gate, rotate, apply_rotation, hos_transfer_ownership, hos_re_rent,
}
use tla_contracts.Wallet.Sweep.{hos_sweep_near, hos_sweep_ft, hos_resolve_sweep}
use tla_contracts.Wallet.Impl.{hos_approve_impl, hos_cancel_impl, hos_pin_impl, hos_on_pinned}
use tla_contracts.Wallet.Spending.{w_execute_extension-SameTerms}

-- An entry point moves the lease's end forward, or back to no less than the notice from now.
abbrev Tenured : Env → TenantWallet → TenantWallet → Type 0
Tenured env w s =
    (w.lease_until_ns ≤ s.lease_until_ns)
    ⊎ (sat_add u64_max env.block_timestamp min_lease_retract_notice_ns ≤ s.lease_until_ns)

lease-open_gate :
    (env : Env) (to : Option AccountId) (c : RotationCause) (asked_by : Option AccountId)
    (w w' : TenantWallet)
    → open_gate env to c asked_by w ≡ ok w'
    → w'.lease_until_ns ≡ w.lease_until_ns
unfolding open_gate
lease-open_gate env to c asked_by w w' h = ground arith

lease-rotate :
    (env : Env) (to : Option AccountId) (c : RotationCause) (w : TenantWallet)
    → Ensures (λ s. s.lease_until_ns ≡ w.lease_until_ns) (rotate env to c w)
unfolding rotate
lease-rotate env none c w = ground arith
lease-rotate env (some next) c w = ground arith

lease-apply_rotation :
    (env : Env) (to : Option AccountId) (c : RotationCause) (asked_by : Option AccountId)
    (w : TenantWallet)
    → Ensures (λ s. s.lease_until_ns ≡ w.lease_until_ns) (apply_rotation env to c asked_by w)
unfolding apply_rotation
lease-apply_rotation env to c asked_by w = elim (Result-cases (open_gate env to c asked_by w)) [
  | inl (w', e) ↦
      rw e (ground (arith, lease-rotate env to c w', lease-open_gate env to c asked_by w w' e))
  | inr (x, e) ↦ rw e tt
]

module _ (up : Upstream) where
  -- Whatever an entry point does, it leaves the lease no shorter, or ending at least twelve hours
  -- from now.
  run_call-Tenured :
      (env : Env) (call : Calls.Call) (w : TenantWallet)
      → Ensures (Tenured env w) (Calls.run_call up env call w)
  unfolding Calls.run_call hos_grant_spend hos_revoke_spend hos_set_payout_account hos_approve_impl
      hos_cancel_impl hos_pin_impl hos_freeze hos_unfreeze hos_sweep_near hos_on_pinned
      hos_set_lease hos_retract_lease hos_transfer_ownership hos_re_rent hos_sweep_ft
      hos_resolve_sweep
  run_call-Tenured env Calls.execute_signed w = tt
  run_call-Tenured env (Calls.execute_extension request) w =
      Ensures-map (w_execute_extension env up request w) (λ s same. inl (omega (arith, same.lease)))
        (w_execute_extension-SameTerms env up request w)
  run_call-Tenured env (Calls.grant_spend d r b t i x) w = ground arith
  run_call-Tenured env (Calls.revoke_spend d) w = ground arith
  run_call-Tenured env (Calls.set_payout_account p o) w = ground arith
  run_call-Tenured env (Calls.approve_impl h) w = ground arith
  run_call-Tenured env Calls.cancel_impl w = ground arith
  run_call-Tenured env Calls.pin_impl w = ground arith
  run_call-Tenured env Calls.freeze w = ground arith
  run_call-Tenured env Calls.unfreeze w = ground arith
  run_call-Tenured env Calls.sweep_near w = ground arith
  run_call-Tenured env (Calls.on_pinned h at) w = ground arith
  run_call-Tenured env (Calls.set_lease until s) w = ground arith
  run_call-Tenured env (Calls.retract_lease until) w = ground arith
  run_call-Tenured env (Calls.transfer_ownership to c asked) w =
      ground (arith, lease-apply_rotation env to c asked w)
  run_call-Tenured env (Calls.re_rent to p until) w =
      ground (arith, lease-apply_rotation env (some to) RotationCause.re_rent none w)
  run_call-Tenured env (Calls.sweep_ft ft amount) w = ground arith
  run_call-Tenured env (Calls.resolve_sweep p ft amount) w = ground arith

  -- Every receipt comes at the given time or later.
  abbrev pub AreSince : ℕ → List Calls.Receipt → Type 0
  AreSince now [] = Unit
  AreSince now ((env, call) ∷ rs) = (now ≤ env.block_timestamp) × AreSince now rs

  receive-notice :
      (now : ℕ) (r : Calls.Receipt) (w : TenantWallet)
      → now ≤ r.0.block_timestamp
      → sat_add u64_max now min_lease_retract_notice_ns ≤ w.lease_until_ns
      → sat_add u64_max now min_lease_retract_notice_ns ≤ (Calls.receive up w r).lease_until_ns
  unfolding Calls.receive
  receive-notice now (env, call) w h k = ground (arith, run_call-Tenured env call w)

  -- A lease that has twelve hours or more left at some time still ends no earlier than twelve hours
  -- after that time, whatever receipts come from then on, the authority's included.
  pub receive_all-notice :
      (rs : List Calls.Receipt) (now : ℕ) (w : TenantWallet)
      → AreSince now rs
      → sat_add u64_max now min_lease_retract_notice_ns ≤ w.lease_until_ns
      → sat_add u64_max now min_lease_retract_notice_ns ≤ (Calls.receive_all up w rs).lease_until_ns
  unfolding Calls.receive_all
  receive_all-notice [] now w since h = h
  receive_all-notice ((env, call) ∷ rs) now w since h =
      receive_all-notice rs now (Calls.receive up w (env, call)) since.1
        (receive-notice now (env, call) w since.0 h)
