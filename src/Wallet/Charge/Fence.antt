-- ===== src/Wallet/Charge/Fence.antt =====
-- contracts/hos-wallet/src/lib.rs: what a delegate's request may name.
use text.Mathlib.Text.{◌==◌ as str_eq}
use text.Mathlib.TextEquality.{eq_iff}
use tla_contracts.Prelude.{
  ℕ, ◌≡◌, ◌≢◌, inl, inr, ◌⊎◌, subst, true, Option, none, some, List, [], ◌∷◌, ok, arith, Bool-cases,
  Option-cases, Result-cases,
}
use tla_contracts.Prelude.IdSet
use tla_contracts.Prelude.IdMap
use tla_contracts.Prelude.IdMap.{IdMap}
use tla_contracts.Prelude.IdSet.{IdSet}
use tla_contracts.Near.{AccountId}
use tla_contracts.Wallet.Types.{Upstream, NearPromise, SpendGrant}
use tla_contracts.Prelude.{length}
use mathlib.Core.Path.{subst₂, fun_ext}
use tla_contracts.Wallet.Types.{FunctionCall, FtTransferArgs, NftTransferArgs}
use tla_contracts.Wallet.Charge.{
  Charged, first_call, all_transfers, charge_transfer, charge_ft_transfer, charge_nft_transfer,
  charge_token_call, charge_call, charge_promise, charge_all,
}
use tla_contracts.Wallet.Charge.Metering.{budget_of, charge_promise-Meters}

module _ (up : Upstream) (delegate collection : AccountId) where
  -- A transfer of a token that the grant gives a budget of, or of a granted item, to a granted receiver.
  abbrev pub IsTokenCall :
      IdSet → IdMap IdSet → (AccountId → Option ℕ) → NearPromise → FunctionCall → Type 0
  IsTokenCall receivers items budgets p call =
      ((call.function_name ≡ "ft_transfer")
        × (args : FtTransferArgs) × (up.read_ft_args call.args ≡ some args)
        × (IdSet.contains receivers args.receiver_id ≡ true)
        × (budgets p.receiver_id ≢ none))
      ⊎ ((call.function_name ≡ "nft_transfer")
          × (args : NftTransferArgs) × (up.read_nft_args call.args ≡ some args)
          × (IdSet.contains receivers args.receiver_id ≡ true)
          × (args.approval_id ≡ none)
          × (fence : IdSet) × (IdMap.get items p.receiver_id ≡ some fence)
          × (IdSet.contains fence args.token_id ≡ true))

  abbrev pub IsPayment :
      IdSet → IdMap IdSet → (AccountId → Option ℕ) → NearPromise → Option FunctionCall → Type 0
  IsPayment receivers items budgets p none =
      (IdSet.contains receivers p.receiver_id ≡ true) × (all_transfers p.actions ≡ true)
  IsPayment receivers items budgets p (some call) =
      (length p.actions ≡ 1)
      × (call.deposit ≡ 1)
      × (p.receiver_id ≢ collection)
      × IsTokenCall receivers items budgets p call

  abbrev pub IsAllowed : IdSet → IdMap IdSet → (AccountId → Option ℕ) → NearPromise → Type 0
  IsAllowed receivers items budgets p =
      (p.refund_to ≡ none) × IsPayment receivers items budgets p (first_call p.actions)

  abbrev pub AreAllowed : IdSet → IdMap IdSet → (AccountId → Option ℕ) → List NearPromise → Type 0
  AreAllowed receivers items budgets [] = Unit
  AreAllowed receivers items budgets (p ∷ ps) =
      IsAllowed receivers items budgets p × AreAllowed receivers items budgets ps

  charge_ft_transfer-IsTokenCall :
      (g : SpendGrant) (p : NearPromise) (call : FunctionCall) (c : Charged)
      → call.function_name ≡ "ft_transfer"
      → charge_ft_transfer up g delegate p call ≡ ok c
      → IsTokenCall g.receivers g.items (budget_of g) p call
  unfolding charge_ft_transfer
  charge_ft_transfer-IsTokenCall g p call c named h =
      elim (Option-cases (up.read_ft_args call.args)) [
        | inl e ↦ absurd (ground (arith, e))
        | inr (args, e) ↦ inl (named, args, e, ground (arith, e), ground (arith, e))
      ]

  charge_nft_transfer-IsTokenCall :
      (g : SpendGrant) (p : NearPromise) (call : FunctionCall) (c : Charged)
      → call.function_name ≡ "nft_transfer"
      → charge_nft_transfer up g delegate p call ≡ ok c
      → IsTokenCall g.receivers g.items (budget_of g) p call
  unfolding charge_nft_transfer
  charge_nft_transfer-IsTokenCall g p call c named h =
      elim (Option-cases (up.read_nft_args call.args)) [
        | inl e ↦ absurd (ground (arith, e))
        | inr (args, e) ↦ elim (Option-cases (IdMap.get g.items p.receiver_id)) [
          | inl f ↦ absurd (ground (arith, e, f))
          | inr (fence, f) ↦ inr (
            named,
            args,
            e,
            ground (arith, e, f),
            ground (arith, e, f),
            fence,
            f,
            ground (arith, e, f),
          )
        ]
      ]

  charge_token_call-IsTokenCall :
      (g : SpendGrant) (p : NearPromise) (call : FunctionCall) (c : Charged)
      → charge_token_call up g delegate collection p call ≡ ok c
      → (call.deposit ≡ 1)
        × (p.receiver_id ≢ collection)
        × IsTokenCall g.receivers g.items (budget_of g) p call
  unfolding charge_token_call
  charge_token_call-IsTokenCall g p call c h =
      elim (Bool-cases (str_eq call.function_name "ft_transfer")) [
        | inl e ↦ (
          ground arith,
          ground arith,
          charge_ft_transfer-IsTokenCall g p call c ((eq_iff call.function_name "ft_transfer").0 e)
              (ground (arith, e)),
        )
        | inr e ↦ elim (Bool-cases (str_eq call.function_name "nft_transfer")) [
          | inl f ↦ (
            ground arith,
            ground arith,
            charge_nft_transfer-IsTokenCall g p call c
                ((eq_iff call.function_name "nft_transfer").0 f) (ground (arith, e, f)),
          )
          | inr f ↦ absurd (ground (arith, e, f))
        ]
      ]

  charge_promise-IsAllowed :
      (g : SpendGrant) (p : NearPromise) (c : Charged)
      → charge_promise up g delegate collection p ≡ ok c
      → IsAllowed g.receivers g.items (budget_of g) p
  unfolding charge_promise charge_call charge_transfer
  charge_promise-IsAllowed g p c h = elim (Option-cases (first_call p.actions)) [
    | inl e ↦ rw e (ground (arith, e))
    | inr (call, e) ↦
        let r = charge_token_call-IsTokenCall g p call c (ground (arith, e)) in
        rw e (ground (arith, e), (ground (arith, e), r.0, r.1, r.2))
  ]

  -- Each promise of a request that a delegate's grant lets through redirects no refund and pays a
  -- granted receiver: by transfers alone, or by one call with a deposit of one yocto, outside the
  -- account's own collection, which is an `ft_transfer` of a token that the grant has a budget for, or
  -- an `nft_transfer` of a granted item without an approval.
  pub charge_all-AreAllowed :
      (ps : List NearPromise) (g : SpendGrant) (c : Charged)
      → charge_all up g delegate collection ps ≡ ok c
      → AreAllowed g.receivers g.items (budget_of g) ps
  unfolding charge_all
  charge_all-AreAllowed [] g c h = tt
  charge_all-AreAllowed (p ∷ ps) g c h =
      elim (Result-cases (charge_promise up g delegate collection p)) [
        | inl (one, e) ↦ elim (Result-cases (charge_all up one.grant delegate collection ps)) [
          | inl (rest, f) ↦
              let m = charge_promise-Meters up delegate collection g p one e in
              (
                charge_promise-IsAllowed g p one e,
                subst₂ (λ r i. AreAllowed r i (budget_of g) ps) m.receivers m.items
                    (subst (λ b. AreAllowed one.grant.receivers one.grant.items b ps)
                      (fun_ext m.budgets) (charge_all-AreAllowed ps one.grant rest f)),
              )
          | inr (x, f) ↦ absurd (ground (arith, e, f))
        ]
        | inr (x, e) ↦ absurd (ground (arith, e))
      ]
