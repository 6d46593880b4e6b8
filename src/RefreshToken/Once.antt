-- ===== src/RefreshToken/Once.antt =====
-- A refresh token is good for one use, however the transactions of other requests interleave.
use hotel_crm.Prelude.{
  ℕ, ◌≡◌, ◌≢◌, ◌∙◌, sym, String, true, false, List, [], ◌∷◌, Option, ◌&&◌, All, arith, str_eq,
  str_eq-true, str_eq_ne, str_eq_refl, All-at, All-of_at, Memᴰ-change, if◌then◌else◌, Bool-cases,
  inl, inr,
}
use hotel_crm.Schema.{TokenRow}
use hotel_crm.Platform.{Platform, World}
use hotel_crm.Platform.Results.{ok}
use hotel_crm.RefreshToken.Repository.{
  ConsumedRefreshToken, policy, revoke_at, is_live, claimable, has_hash, claim,
}
use hotel_crm.RefreshToken.Service.{consume, hash}
use hotel_crm.RefreshToken.Effects.{
  Transaction, creates, finds, claims, revokes, deletes, token_rows, step, step-Effect, run, IsNew,
}
use hotel_crm.RefreshToken.Unique.{Unique, Unique-id, run-Unique}
use hotel_crm.RefreshToken.Revoked.{
  AllRevoked, Effect-AllRevoked, IsDrawn, run-AllRevoked, claim-revoked,
}
use hotel_crm.RefreshToken.Consume.{consume-IsUse, claim-true}

-- A transaction that stores no other token under this hash.
abbrev pub IsFresh : String → Transaction → Type 0
IsFresh hash (creates _ new) = new.token_hash ≢ hash
IsFresh hash _ = Unit {0}

stamped_or_other :
    (s : Option String) (id : String) (r x y : TokenRow) (at : ℕ)
    → y ≡ (if policy s x && claimable id x then revoke_at at x else x)
    → (policy s r && claimable id r) ≡ true
    → (x.id ≡ r.id → x ≡ r)
    → (str_eq y.id id && is_live y) ≡ false
stamped_or_other s id r x y at e a one = elim (Bool-cases (str_eq x.id id)) [
  | inl c ↦
      let same : r.id ≡ id = str_eq-true r.id id (ground arith) in
      rw (e, one (str_eq-true _ _ c ∙ sym same), a) (ground arith)
  | inr c ↦ rw e (ground arith)
]

module _ {U T R K : Type 0} (p : Platform U T R K) where
  -- Once a claim of an id has succeeded, no later claim of it succeeds, under whatever tenant and
  -- after whatever transactions, if ids are unique when it is made and no UUID drawn after it
  -- repeats the id.
  pub claim_once :
      (tenant other id : String) (xs : List Transaction) (w w' : World U T R)
      → Unique (token_rows p w)
      → IsDrawn p id w'
      → claim p tenant id w ≡ (ok true, w')
      → (claim p other id (run p xs w')).0 ≢ ok true
  claim_once tenant other id xs w w' u f h =
      let (s, r, e, m, c, changed) = claim-true p tenant id w w' h in
      claim-revoked p other id (run p xs w') (
        run-AllRevoked p id xs w' f (
          rw changed (
            All-of_at _ _ λ y n.
              let (x, k, g) = Memᴰ-change _ (revoke_at (p.clock w.reads)) (token_rows p w) n in
              stamped_or_other s id r x y (p.clock w.reads) g c (Unique-id _ x r u k m))))

  pub IsNew-hash :
      (hash : String) (x : Transaction) (w : World U T R)
      → IsFresh hash x
      → (r : TokenRow) → IsNew p w x r
      → has_hash hash r ≡ false
  IsNew-hash hash (creates tenant new) w f r (_, same_hash) = rw same_hash (str_eq_ne _ _ f)
  IsNew-hash hash (finds _ _) w f r n = elim n [ ]
  IsNew-hash hash (claims _ _) w f r n = elim n [ ]
  IsNew-hash hash (revokes _ _) w f r n = elim n [ ]
  IsNew-hash hash (deletes _ _) w f r n = elim n [ ]

  run-AllRevoked_hash :
      (hash : String) (xs : List Transaction) (w : World U T R)
      → All (IsFresh hash) xs
      → AllRevoked (has_hash hash) (token_rows p w)
      → AllRevoked (has_hash hash) (token_rows p (run p xs w))
  unfolding run
  run-AllRevoked_hash hash [] w f d = d
  run-AllRevoked_hash hash (x ∷ xs) w (f, g) d =
      run-AllRevoked_hash hash xs (step p x w) g
        (Effect-AllRevoked _ (IsNew-hash hash x w f) (step-Effect p x w) d)

  -- A refresh token that was consumed is never consumed again, after whatever transactions of any
  -- tenant, if the rows had unique ids and hashes and none of the transactions stores another
  -- token under its hash.
  pub consume_once :
      (raw : K) (xs : List Transaction) (w w' v : World U T R) (c d : ConsumedRefreshToken)
      → Unique (token_rows p w)
      → All (IsFresh (hash p raw)) xs
      → consume p raw w ≡ (ok c, w')
      → consume p raw (run p xs w') ≢ (ok d, v)
  consume_once raw xs w w' v c d u f h k =
      let (at, first) = consume-IsUse p raw w w' c u h in
      let (later, second) =
        consume-IsUse p raw (run p xs w') v d (run-Unique p xs w' first.distinct) k in
      let dead =
        All-at _ _ (run-AllRevoked_hash (hash p raw) xs w' f first.revoked) second.listed in
      ground (arith, dead, second.hashed, second.was_live, str_eq_refl (hash p raw))
