-- ===== src/Gateway/Fallback/Rank.antt =====
-- The rank that the failover order gives a provider.
use llmgateway_go.Prelude.{
  ℕ, suc, ◌+◌, String, ◌==◌, eq_iff, ◌≡◌, refl, List, [], ◌∷◌, ◌++◌, Bool, true, false, All,
  All-every, eq_refl, length-append, Bool-cases, inl, inr, arith, length, none, some, if◌then◌else◌,
}
use llmgateway_go.Prelude.Maps.{Distinct, lookup, insert, lookup-insert}
use llmgateway_go.Gateway.Fallback.{fill_rank, rank_of, provider_rank}
use llmgateway_go.Gateway.Fallback.Order.{position}

abbrev listed : String → List String → Bool
listed p [] = false
listed p (x ∷ xs) = if x == p then true else listed p xs

not_listed : (x : String) (xs : List String) → All (λ y. (x == y) ≡ false) xs → listed x xs ≡ false
not_listed x [] h = refl
not_listed x (y ∷ ys) h = ground (arith, h.0, eq_iff x y, eq_iff y x, not_listed x ys h.1)

lookup-fill_rank :
    (i : ℕ) (xs : List String) (m : List (String × ℕ)) (p : String)
    → Distinct xs
    → lookup p (fill_rank i xs m)
      ≡ (if listed p xs then some (i + 1 + position xs p) else lookup p m)
unfolding fill_rank position
lookup-fill_rank i [] m p d = refl
lookup-fill_rank i (x ∷ xs) m p d = ground (
  arith,
  lookup-fill_rank (i + 1) xs (insert x (i + 1) m) p d.1,
  lookup-insert x p (i + 1) m,
  not_listed x xs d.0,
  eq_iff x p,
)

length-insert :
    (k : String) (v : ℕ) (m : List (String × ℕ))
    → lookup k m ≡ none
    → length (insert k v m) ≡ suc (length m)
unfolding lookup insert
length-insert k v [] h = refl
length-insert k v ((j, w) ∷ m) h = ground (arith, length-insert k v m)

still_absent :
    (x : String) (v : ℕ) (m : List (String × ℕ)) (xs : List String)
    → All (λ y. (x == y) ≡ false) xs
    → All (λ y. lookup y m ≡ none) xs
    → All (λ y. lookup y (insert x v m) ≡ none) xs
still_absent x v m [] d f = tt
still_absent x v m (y ∷ ys) d f =
    (rw (lookup-insert x y v m, d.0) f.0, still_absent x v m ys d.1 f.1)

position_unlisted :
    (p : String) (xs : List String) → listed p xs ≡ false → position xs p ≡ length xs
unfolding position
position_unlisted p [] h = refl
position_unlisted p (x ∷ xs) h = ground (arith, position_unlisted p xs)

apart :
    (x q : String) (xs : List String)
    → All (λ y. (x == y) ≡ false) (xs ++ q ∷ [])
    → (x == q) ≡ false
apart x q [] h = h.0
apart x q (y ∷ ys) h = apart x q ys h.1

length-fill_rank :
    (i : ℕ) (xs : List String) (m : List (String × ℕ))
    → Distinct xs
    → All (λ x. lookup x m ≡ none) xs
    → length (fill_rank i xs m) ≡ length m + length xs
unfolding fill_rank
length-fill_rank i [] m d f = ground arith
length-fill_rank i (x ∷ xs) m d f = omega (
  arith,
  length-fill_rank (i + 1) xs (insert x (i + 1) m) d.1 (still_absent x (i + 1) m xs d.0 f.1),
  length-insert x (i + 1) m f.0,
)

-- With no name listed twice, a provider's rank is one more than its place in the failover order,
-- and a provider that is not listed comes after all that are.
pub rank-position :
    (order : List String) (p : String)
    → Distinct order
    → provider_rank (rank_of order) p ≡ suc (position order p)
unfolding provider_rank rank_of
rank-position order p d = elim (Bool-cases (listed p order)) [
  | inl e ↦ rw (lookup-fill_rank 0 order [] p d, e) (omega arith)
  | inr e ↦
      rw (lookup-fill_rank 0 order [] p d, e)
        (omega (
          arith,
          length-fill_rank 0 order [] d (All-every _ order λ x. refl),
          position_unlisted p order e,
        ))
]

position_last :
    (q : String) (xs : List String)
    → Distinct (xs ++ q ∷ [])
    → (position (xs ++ q ∷ []) q ≡ length xs) × (listed q (xs ++ q ∷ []) ≡ true)
unfolding position
position_last q [] d = ground (arith, eq_refl q)
position_last q (x ∷ xs) d = ground (arith, position_last q xs d.1, apart x q xs d.0)

-- Where the order begins with a name given twice, it is one rank that the missing providers lack:
-- a provider that is listed last ties with every provider that is not listed.
pub repeated_rank_ties :
    (p q r : String) (order : List String)
    → Distinct (p ∷ order ++ q ∷ [])
    → listed r (p ∷ order ++ q ∷ []) ≡ false
    → provider_rank (rank_of (p ∷ p ∷ order ++ q ∷ [])) r
      ≡ provider_rank (rank_of (p ∷ p ∷ order ++ q ∷ [])) q
unfolding provider_rank rank_of fill_rank lookup insert
repeated_rank_ties p q r order d absent = ground (
  arith,
  lookup-fill_rank 2 (order ++ q ∷ []) first r d.1,
  lookup-fill_rank 2 (order ++ q ∷ []) first q d.1,
  position_last q order d.1,
  length-fill_rank 2 (order ++ q ∷ []) first d.1 (
      still_absent p 2 ((p, 1) ∷ []) (order ++ q ∷ []) d.0
        (still_absent p 1 [] (order ++ q ∷ []) d.0 (All-every _ (order ++ q ∷ []) λ x. refl))),
  length-append order (q ∷ []),
  eq_refl p,
)
  where
    first : List (String × ℕ)
    first = insert p 2 ((p, 1) ∷ [])
