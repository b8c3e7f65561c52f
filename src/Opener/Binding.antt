-- ===== src/Opener/Binding.antt =====
-- contracts/registrar-opener/src/batch.rs, names.rs: that the digest an admin approves binds the batch.
use tla_contracts.Prelude.{
  ℕ, ◌^◌, ◌≡◌, ◌≤◌, ◌<◌, ◌%◌, refl, ap, sym, subst, ◌∙◌, some, List, [], ◌∷◌, ◌++◌, ok, arith,
  length,
}
use tla_contracts.Prelude.IdMap
use tla_contracts.Prelude.Wire.{
  to_le_bytes, to_le_bytes_injective, append_cancel, push_str, push_str_cancel,
}
use tla_contracts.Near.{AccountId, CryptoHash, Bytes, Env}
use tla_contracts.Opener.Types.{Batch, RegistrarOpener, Host, Outcome}
use tla_contracts.Opener.Names.{fold_digest, seed_digest, digest_domain}
use tla_contracts.Opener.Batches.{create_batch, assert_setup}
use tla_contracts.Opener.Calls
use tla_contracts.Opener.Steps.{fold_names}
use tla_contracts.Opener.Digest.{AreOnHost, IsDraftOf, added_names, create_batch-IsDraftOf}

-- The digest has no collisions, and the texts of account ids and of digests show them.
pub record IsFaithful (host : Host) (env : Env) : Type 0 where
  pub sha256 : (a b : Bytes) → env.sha256 a ≡ env.sha256 b → a ≡ b
  pub as_str : (a b : AccountId) → env.as_str a ≡ env.as_str b → a ≡ b
  pub short : (a : AccountId) → length (env.as_str a) ≤ 64
  pub to_vec : (a b : CryptoHash) → host.to_vec a ≡ host.to_vec b → a ≡ b
  pub wide : (a b : CryptoHash) → length (host.to_vec a) ≡ length (host.to_vec b)

-- A text behind its length, as the digest and as the wire format have it.
part-push_str : (s : Bytes) → length s < 2 ^ 32 → to_le_bytes 4 (length s) ++ s ≡ push_str s
unfolding push_str
part-push_str s h =
    let e : length s % 2 ^ 32 ≡ length s = omega arith in ap (λ n. to_le_bytes 4 n ++ s) (sym e)

part_cancel :
    (s t : Bytes) {x y : Bytes}
    → length s < 2 ^ 32
    → length t < 2 ^ 32
    → (to_le_bytes 4 (length s) ++ s) ++ x ≡ (to_le_bytes 4 (length t) ++ t) ++ y
    → (s ≡ t) × (x ≡ y)
part_cancel s t {x} {y} p q e =
    push_str_cancel s t p q
      (ap (λ u. u ++ x) (sym (part-push_str s p)) ∙ e ∙ ap (λ u. u ++ y) (part-push_str t q))

module _ (host : Host) (env other : Env) (faithful : IsFaithful host env)
    (same_digest : other.sha256 ≡ env.sha256) (same_text : other.as_str ≡ env.as_str) where
  fold_digest_injective :
      (d e : CryptoHash) (x y : AccountId)
      → fold_digest host env d x ≡ fold_digest host other e y
      → (d ≡ e) × (x ≡ y)
  unfolding fold_digest
  fold_digest_injective d e x y h =
      let k = faithful.sha256 _ _ (rw (same_digest, same_text) at h) in
      let (l, r) = append_cancel (host.to_vec d) (host.to_vec e) _ _ (faithful.wide d e) k in
      (faithful.to_vec d e l, faithful.as_str x y r)

  fold_names_injective :
      (xs ys : List AccountId) (d e : CryptoHash)
      → length xs ≡ length ys
      → fold_names host env d xs ≡ fold_names host other e ys
      → (d ≡ e) × (xs ≡ ys)
  unfolding fold_names
  fold_names_injective [] [] d e l h = (h, refl)
  fold_names_injective [] (y ∷ ys) d e l h = absurd (omega arith)
  fold_names_injective (x ∷ xs) [] d e l h = absurd (omega arith)
  fold_names_injective (x ∷ xs) (y ∷ ys) d e l h =
      let (g, r) =
        fold_names_injective xs ys (fold_digest host env d x) (fold_digest host other e y)
          (omega arith) h in
      let k = fold_digest_injective d e x y g in (k.0, ground (arith, k.1, r))

  seed_digest_injective :
      (code code' : AccountId) (args args' : Bytes) (funding funding' : ℕ)
      → length args < 2 ^ 32
      → length args' < 2 ^ 32
      → funding < 2 ^ 128
      → funding' < 2 ^ 128
      → seed_digest host env code args funding ≡ seed_digest host other code' args' funding'
      → (code ≡ code') × (args ≡ args') × (funding ≡ funding')
  unfolding seed_digest
  seed_digest_injective code code' args args' funding funding' p p' q q' h =
      let k = faithful.sha256 _ _ (rw (same_digest, same_text) at h) in
      let l = append_cancel digest_domain digest_domain _ _ refl k in
      let m =
        part_cancel (env.as_str code) (env.as_str code') (omega (arith, faithful.short code))
          (omega (arith, faithful.short code')) l.1 in
      let n = part_cancel args args' p p' m.1 in
      (
        faithful.as_str code code' m.0,
        n.0,
        to_le_bytes_injective 16 funding funding' (omega arith) (omega arith) n.1,
      )

create_batch-short :
    (host : Host) (env : Env) (code : AccountId) (args : Bytes) (funding : ℕ) (s : RegistrarOpener)
    (done : ℕ × Outcome)
    → create_batch host env code args funding s ≡ ok done
    → length args < 2 ^ 32
unfolding create_batch assert_setup
create_batch-short host env code args funding s done h = ground arith

-- Two batches on the same host, each as drafted and with whatever receipts since, that stand with the same
-- digest after the same number of names was added, are of the same code, arguments, funding and names in
-- the same order, and have that code, those arguments and that funding: so what an admin approves by a
-- digest and a number of names is one batch. This is so if the digest has no collisions.
pub digest_binds :
    (host : Host) (env other : Env) (code code' : AccountId) (args args' : Bytes)
    (funding funding' : ℕ) (s s' : RegistrarOpener) (done done' : ℕ × Outcome)
    (rs rs' : List Calls.Receipt) (batch batch' : Batch)
    → IsFaithful host env
    → (other.sha256 ≡ env.sha256) × (other.as_str ≡ env.as_str)
    → (funding < 2 ^ 128) × (funding' < 2 ^ 128)
    → create_batch host env code args funding s ≡ ok done
    → create_batch host other code' args' funding' s' ≡ ok done'
    → AreOnHost env rs
    → AreOnHost other rs'
    → IdMap.get (Calls.receive_all host done.1.state rs).batches done.0 ≡ some batch
    → IdMap.get (Calls.receive_all host done'.1.state rs').batches done'.0 ≡ some batch'
    → length (added_names host env done.0 done.1.state rs)
      ≡ length (added_names host other done'.0 done'.1.state rs')
    → batch.digest ≡ batch'.digest
    → (code ≡ code')
      × (args ≡ args')
      × (funding ≡ funding')
      × (added_names host env done.0 done.1.state rs
          ≡ added_names host other done'.0 done'.1.state rs')
      × (batch.global_code ≡ code)
      × (batch.init_args ≡ args)
      × (batch.funding ≡ funding)
digest_binds host env other code code' args args' funding funding' s s' done done' rs rs' batch
      batch' faithful same fits h h' on on' stands stands' count e =
    let d =
      subst (IsDraftOf _ code args funding) stands
        (create_batch-IsDraftOf host env code args funding s done rs h on) in
    let d' =
      subst (IsDraftOf _ code' args' funding') stands'
        (create_batch-IsDraftOf host other code' args' funding' s' done' rs' h' on') in
    let f =
      fold_names_injective host env other faithful same.0 same.1
        (added_names host env done.0 done.1.state rs)
        (added_names host other done'.0 done'.1.state rs') _ _ count (sym d.0 ∙ e ∙ d'.0) in
    let g =
      seed_digest_injective host env other faithful same.0 same.1 code code' args args' funding
        funding' (create_batch-short host env code args funding s done h)
        (create_batch-short host other code' args' funding' s' done' h') fits.0 fits.1 f.0 in
    (g.0, g.1, g.2, f.1, d.1, d.2, d.3)
