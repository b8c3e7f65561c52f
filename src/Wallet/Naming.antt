-- ===== src/Wallet/Naming.antt =====
-- contracts/hos-wallet/src/lib.rs: which account may initialise a wallet.
use tla_contracts.Prelude.{
  ℕ, ◌++◌, ◌≡◌, ◌≢◌, sym, ◌∙◌, ◌↔◌, ap, inl, inr, true, false, List, [], ◌∷◌, arith, Option-cases,
}
use tla_contracts.Near.{AccountId, Env}
use mathlib.Core.List.{append_assoc}
use tla_contracts.Prelude.Codes
use tla_contracts.Wallet.Init.{is_direct_subaccount}

-- One label, with no dot in it, and a dot in front of the parent's name.
abbrev pub IsLabelOf : Env → AccountId → AccountId → List ℕ → Type 0
IsLabelOf env child parent label =
    (env.as_str child ≡ label ++ b'.' ∷ env.as_str parent)
    × (label ≢ [])
    × (Codes.has_code label b'.' ≡ false)

module _ (env : Env) (child parent : AccountId) where
  is_direct_subaccount_sound :
      is_direct_subaccount env child parent ≡ true
      → (label : List ℕ) × IsLabelOf env child parent label
  unfolding is_direct_subaccount
  is_direct_subaccount_sound h =
      elim (Option-cases (Codes.strip_suffix (env.as_str child) (env.as_str parent))) [
        | inl e ↦ absurd (ground (arith, e))
        | inr (prefix, e) ↦ elim (Option-cases (Codes.strip_suffix prefix (b'.' ∷ []))) [
          | inl f ↦ absurd (ground (arith, e, f))
          | inr (label, f) ↦ (
            label,
            (
              Codes.strip_suffix_sound (env.as_str child) (env.as_str parent) prefix e
                  ∙ ap (λ t. t ++ env.as_str parent)
                      (Codes.strip_suffix_sound prefix (b'.' ∷ []) label f)
                  ∙ append_assoc label (b'.' ∷ []) (env.as_str parent),
              ground (arith, e, f),
              ground (arith, e, f),
            ),
          )
        ]
      ]

  is_direct_subaccount_complete :
      (label : List ℕ)
      → IsLabelOf env child parent label
      → is_direct_subaccount env child parent ≡ true
  unfolding is_direct_subaccount
  is_direct_subaccount_complete label h = ground (
    arith,
    h.0 ∙ sym (append_assoc label (b'.' ∷ []) (env.as_str parent)),
    Codes.strip_suffix_complete (label ++ b'.' ∷ []) (env.as_str parent),
    Codes.strip_suffix_complete label (b'.' ∷ []),
  )

  -- The parent check of `hos_init` passes exactly for a caller whose name, behind one label with no
  -- dot in it and a dot, is the name of this account.
  pub is_direct_subaccount_iff :
      (is_direct_subaccount env child parent ≡ true)
      ↔ ((label : List ℕ) × IsLabelOf env child parent label)
  is_direct_subaccount_iff =
      (is_direct_subaccount_sound, λ l. is_direct_subaccount_complete l.0 l.1)
