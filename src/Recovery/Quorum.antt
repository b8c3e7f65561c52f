-- ===== src/Recovery/Quorum.antt =====
-- contracts/mpc-recovery/src/proof.rs: when watchers make a quorum.
use tla_contracts.Prelude.{
  ℕ, ◌≡◌, ◌≤◌, ◌<◌, ◌^◌, ◌↔◌, ◌+◌, Bool, true, false, ◌&&◌, ◌||◌, List, [], ◌∷◌, ◌==◌, length,
  arith,
}
use tla_contracts.Prelude.IdSet
use tla_contracts.Prelude.Counting.{IsIncluded, IsNodup-length}
use tla_contracts.Near.{Bytes}
use tla_contracts.Recovery.Types.{Keys, PublicKey}
use tla_contracts.Recovery.Proofs.{verify, count_signers, verify_quorum}

module _ (keys : Keys) (message : Bytes) where
  -- One of the signatures is the key's, and valid.
  abbrev pub has_signed : List (PublicKey × Bytes) → PublicKey → Bool
  has_signed [] k = false
  has_signed ((key, signature) ∷ rest) k =
      ((k == key) && verify keys message signature k) || has_signed rest k

  module _ (watchers : List PublicKey) where
    -- Each is a watcher and has signed.
    abbrev pub AreSigners : List (PublicKey × Bytes) → List PublicKey → Type 0
    AreSigners signatures [] = Unit
    AreSigners signatures (k ∷ ks) =
        (IdSet.contains watchers k ≡ true)
        × (has_signed signatures k ≡ true)
        × AreSigners signatures ks

    contains-count_signers :
        (counted : List PublicKey) (signatures : List (PublicKey × Bytes)) (k : PublicKey)
        → IdSet.contains (count_signers keys message watchers counted signatures) k
          ≡ (IdSet.contains counted k || (IdSet.contains watchers k && has_signed signatures k))
    unfolding count_signers IdSet.contains
    contains-count_signers counted [] k = ground arith
    contains-count_signers counted ((key, signature) ∷ rest) k = ground (
      arith,
      contains-count_signers counted rest k,
      contains-count_signers (key ∷ counted) rest k,
    )

    count_signers-IsNodup :
        (counted : List PublicKey) (signatures : List (PublicKey × Bytes))
        → IdSet.IsNodup counted
        → IdSet.IsNodup (count_signers keys message watchers counted signatures)
    unfolding count_signers
    count_signers-IsNodup counted [] n = n
    count_signers-IsNodup counted ((key, signature) ∷ rest) n =
        ground
          (arith, count_signers-IsNodup counted rest, count_signers-IsNodup (key ∷ counted) rest)

    length-count_signers :
        (counted : List PublicKey) (signatures : List (PublicKey × Bytes))
        → length (count_signers keys message watchers counted signatures)
          ≤ length counted + length signatures
    unfolding count_signers
    length-count_signers counted [] = ground arith
    length-count_signers counted ((key, signature) ∷ rest) =
        ground (arith, length-count_signers counted rest, length-count_signers (key ∷ counted) rest)

    signers_of :
        (signatures : List (PublicKey × Bytes)) (ks : List PublicKey)
        → ((k : PublicKey)
            → IdSet.contains ks k ≡ true
            → (IdSet.contains watchers k && has_signed signatures k) ≡ true)
        → AreSigners signatures ks
    unfolding IdSet.contains
    signers_of signatures [] h = tt
    signers_of signatures (k ∷ ks) h =
        let s = h k (ground arith) in
        (
          ground (arith, s),
          ground (arith, s),
          signers_of signatures ks (λ j m. h j (ground (arith, m))),
        )

    AreSigners-IsIncluded :
        (signatures : List (PublicKey × Bytes)) (ks : List PublicKey)
        → AreSigners signatures ks
        → IsIncluded ks (count_signers keys message watchers [] signatures)
    AreSigners-IsIncluded signatures [] h = tt
    AreSigners-IsIncluded signatures (k ∷ ks) h = (
      ground (arith, contains-count_signers [] signatures k, h.0, h.1),
      AreSigners-IsIncluded signatures ks h.2,
    )

    -- A quorum is met exactly if some watchers, at least as many as the threshold and no two the same,
    -- have each signed the message: signing twice counts once, and an outsider's signature or an
    -- invalid one not at all.
    pub verify_quorum_iff :
        (signatures : List (PublicKey × Bytes)) (threshold : ℕ)
        → length signatures < 2 ^ 32
        → (verify_quorum keys message signatures watchers threshold ≡ true) ↔ (
            (ks : List PublicKey) × IdSet.IsNodup ks
            × AreSigners signatures ks
            × (threshold ≤ length ks))
    unfolding verify_quorum IdSet.contains
    verify_quorum_iff signatures threshold few =
        let counted = count_signers keys message watchers [] signatures in
        let short = length-count_signers [] signatures in
        (
          λ h. (
            counted,
            count_signers-IsNodup [] signatures tt,
            signers_of signatures counted
                (λ k m. ground (arith, m, contains-count_signers [] signatures k)),
            ground (arith, h, short, few),
          ),
          λ (ks, n, s, t). ground (
            arith,
            IsNodup-length ks counted n (AreSigners-IsIncluded signatures ks s),
            t,
            short,
            few,
          ),
        )
