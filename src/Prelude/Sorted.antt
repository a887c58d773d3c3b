-- ===== src/Prelude/Sorted.antt =====
-- The sorted names of a map: the loops of the source that must not depend on Go's random order of
-- iteration collect a map's keys, call `sort.Strings` and then read each entry. Here the entries
-- themselves are ordered by their names. Go documents a sorted result; the names of a map are
-- distinct, so there is one, which insertion computes.
use Prim.Native.Nat.{Ordering}
use Prim.Native.String.{String, compare}
use mathlib.Core.Bool.{Bool, true, false}
use mathlib.Core.Path.{◌≡◌}
use native.Mathlib.Omega.{arith}
use text.Mathlib.Text.{◌==◌}
use text.Mathlib.TextEquality.{eq_iff}
use mathlib.Core.Logic.{inl, inr}
use mathlib.Core.List.{List, [], ◌∷◌}
use llmgateway_go.Prelude.Tests.{Bool-cases, if◌then◌else◌}
use llmgateway_go.Prelude.Lists.{All}

abbrev pub is_before : String → String → Bool
is_before s t = elim (compare s t) [ Ordering.lt ↦ true | _ ↦ false ]

other_way : (a b : String) → (a == b) ≡ false → (b == a) ≡ false
other_way a b h = ground (arith, h, eq_iff a b, eq_iff b a)

module _ {ℓ} {V : Type ℓ} where
  unfoldable pub insert_entry : String × V → List (String × V) → List (String × V)
  insert_entry e [] = e ∷ []
  insert_entry e (x ∷ xs) = if is_before x.0 e.0 then x ∷ insert_entry e xs else e ∷ x ∷ xs

  unfoldable pub sort_entries : List (String × V) → List (String × V)
  sort_entries [] = []
  sort_entries (e ∷ m) = insert_entry e (sort_entries m)

  module _ {κ} (P : String × V → Type κ) where
    All-insert_entry :
        (e : String × V) (xs : List (String × V)) → P e → All P xs → All P (insert_entry e xs)
    unfolding insert_entry
    All-insert_entry e [] h k = (h, tt)
    All-insert_entry e (x ∷ xs) h k = elim (Bool-cases (is_before x.0 e.0)) [
      | inl b ↦ rw b (k.0, All-insert_entry e xs h k.1)
      | inr b ↦ rw b (h, k)
    ]

    All-insert_entry_of :
        (e : String × V) (xs : List (String × V)) → All P (insert_entry e xs) → P e × All P xs
    unfolding insert_entry
    All-insert_entry_of e [] h = h
    All-insert_entry_of e (x ∷ xs) h = elim (Bool-cases (is_before x.0 e.0)) [
      | inl b ↦
          let h' : P x × All P (insert_entry e xs) = rw b at h in
          let (p, q) = All-insert_entry_of e xs h'.1 in (p, (h'.0, q))
      | inr b ↦ rw b at h
    ]

    pub All-sort_entries : (m : List (String × V)) → All P m → All P (sort_entries m)
    unfolding sort_entries
    All-sort_entries [] h = tt
    All-sort_entries (e ∷ m) h = All-insert_entry e (sort_entries m) h.0 (All-sort_entries m h.1)

    -- What holds of the entries in order holds of the map's.
    pub All-sort_entries_of : (m : List (String × V)) → All P (sort_entries m) → All P m
    unfolding sort_entries
    All-sort_entries_of [] h = tt
    All-sort_entries_of (e ∷ m) h =
        let (p, q) = All-insert_entry_of e (sort_entries m) h in (p, All-sort_entries_of m q)

  -- An entry of another name.
  abbrev pub IsOther : String → String × V → Type 0
  IsOther name e = (name == e.0) ≡ false

  -- No name twice, as in a Go map.
  abbrev pub IsMap : List (String × V) → Type 0
  IsMap [] = Unit
  IsMap (e ∷ m) = All (IsOther e.0) m × IsMap m

  insert_entry-IsMap :
      (e : String × V) (xs : List (String × V))
      → All (IsOther e.0) xs
      → IsMap xs
      → IsMap (insert_entry e xs)
  unfolding insert_entry
  insert_entry-IsMap e [] h k = (tt, tt)
  insert_entry-IsMap e (x ∷ xs) h k = elim (Bool-cases (is_before x.0 e.0)) [
    | inl b ↦ rw b (
      All-insert_entry (IsOther x.0) e xs (other_way e.0 x.0 h.0) k.0,
      insert_entry-IsMap e xs h.1 k.1,
    )
    | inr b ↦ rw b (h, k)
  ]

  pub sort_entries-IsMap : (m : List (String × V)) → IsMap m → IsMap (sort_entries m)
  unfolding sort_entries
  sort_entries-IsMap [] h = tt
  sort_entries-IsMap (e ∷ m) h =
      insert_entry-IsMap e (sort_entries m) (All-sort_entries (IsOther e.0) m h.0)
        (sort_entries-IsMap m h.1)
