-- ===== src/Base/Maps/Sizes.antt =====
-- Maps as association lists: the number of entries, what holds of all of them, and keys that stand
-- once.
use Prim.Native.Nat.{ℕ, ◌+◌, ◌≤◌}
use mathlib.Core.Path.{◌≡◌, refl, sym}
use mathlib.Core.Logic.{inl, inr}
use mathlib.Core.Option.{Option, none, some}
use mathlib.Core.List.{List, [], ◌∷◌, ◌++◌}
use native.Mathlib.Omega.{arith}
use pywebtransport.Base.Lists.{length}
use pywebtransport.Base.Maps.{
  lookup, insert, remove, remove_all, remove_absent, lookup-insert, lookup-remove,
}
use pywebtransport.Base.Tests.{◌==◌, ==_iff, if◌then◌else◌, Bool-cases, is_some}

module _ {ℓ} {V : Type ℓ} where
  pub length-insert :
      (k : ℕ) (v : V) (m : List (ℕ × V))
      → length (insert k v m) ≡ (if is_some (lookup k m) then length m else length m + 1)
  unfolding insert lookup
  length-insert k v [] = refl
  length-insert k v ((j, w) ∷ m) = ground (arith, length-insert k v m)

  pub length-remove : (k : ℕ) (m : List (ℕ × V)) → length (remove k m) ≤ length m
  unfolding remove
  length-remove k [] = omega arith
  length-remove k ((j, w) ∷ m) = ground (arith, length-remove k m)

  pub length-remove_found :
      (k : ℕ) (m : List (ℕ × V)) (v : V) → lookup k m ≡ some v → length (remove k m) + 1 ≤ length m
  unfolding remove lookup
  length-remove_found k [] v e = cc
  length-remove_found k ((j, w) ∷ m) v e =
      ground (arith, length-remove_found k m v, length-remove k m)

  pub length-remove_all : (ks : List ℕ) (m : List (ℕ × V)) → length (remove_all ks m) ≤ length m
  unfolding remove_all
  length-remove_all [] m = omega arith
  length-remove_all (k ∷ ks) m = omega (arith, length-remove_all ks (remove k m), length-remove k m)

  -- What holds of every value.
  abbrev pub Every {κ} : (V → Type κ) → List (ℕ × V) → Type κ
  Every P [] = Unit
  Every P ((k, v) ∷ m) = P v × Every P m

  pub Every-insert {κ} :
      (P : V → Type κ) (k : ℕ) (v : V) (m : List (ℕ × V)) → P v → Every P m → Every P (insert k v m)
  unfolding insert
  Every-insert P k v [] p e = (p, tt)
  Every-insert P k v ((j, w) ∷ m) p (q, e) = elim (Bool-cases (j == k)) [
    | inl same ↦ rw same (p, e)
    | inr other ↦ rw other (q, Every-insert P k v m p e)
  ]

  pub Every-remove {κ} :
      (P : V → Type κ) (k : ℕ) (m : List (ℕ × V)) → Every P m → Every P (remove k m)
  unfolding remove
  Every-remove P k [] e = tt
  Every-remove P k ((j, w) ∷ m) (q, e) = elim (Bool-cases (j == k)) [
    | inl same ↦ rw same (Every-remove P k m e)
    | inr other ↦ rw other (q, Every-remove P k m e)
  ]

  pub Every-remove_all {κ} :
      (P : V → Type κ) (ks : List ℕ) (m : List (ℕ × V)) → Every P m → Every P (remove_all ks m)
  unfolding remove_all
  Every-remove_all P [] m e = e
  Every-remove_all P (k ∷ ks) m e = Every-remove_all P ks (remove k m) (Every-remove P k m e)

  pub Every-lookup {κ} :
      (P : V → Type κ) (k : ℕ) (v : V) (m : List (ℕ × V)) → lookup k m ≡ some v → Every P m → P v
  unfolding lookup
  Every-lookup P k v [] e h = cc
  Every-lookup P k v ((j, w) ∷ m) e (p, h) = elim (Bool-cases (j == k)) [
    | inl same ↦ let here : w ≡ v = ground arith in rw (sym here) p
    | inr other ↦ let later : lookup k m ≡ some v = ground arith in Every-lookup P k v m later h
  ]

  -- A key stands once.
  abbrev pub Distinct : List (ℕ × V) → Type ℓ
  Distinct [] = Unit
  Distinct ((k, v) ∷ m) = (lookup k m ≡ none) × Distinct m

  pub Distinct-insert : (k : ℕ) (v : V) (m : List (ℕ × V)) → Distinct m → Distinct (insert k v m)
  unfolding insert lookup
  Distinct-insert k v [] d = (refl, tt)
  Distinct-insert k v ((j, w) ∷ m) (n, d) = elim (Bool-cases (j == k)) [
    | inl same ↦
        let e : k ≡ j = sym ((==_iff j k).0 same) in
        let here : lookup k m ≡ none = rw e n in rw same (here, d)
    | inr other ↦ rw other (ground (arith, lookup-insert k j v m), Distinct-insert k v m d)
  ]

  pub Distinct-remove : (k : ℕ) (m : List (ℕ × V)) → Distinct m → Distinct (remove k m)
  unfolding remove lookup
  Distinct-remove k [] d = tt
  Distinct-remove k ((j, w) ∷ m) (n, d) = elim (Bool-cases (j == k)) [
    | inl same ↦ rw same (Distinct-remove k m d)
    | inr other ↦ rw other (ground (arith, lookup-remove k j m), Distinct-remove k m d)
  ]

  pub Distinct-remove_all :
      (ks : List ℕ) (m : List (ℕ × V)) → Distinct m → Distinct (remove_all ks m)
  unfolding remove_all
  Distinct-remove_all [] m d = d
  Distinct-remove_all (k ∷ ks) m d = Distinct-remove_all ks (remove k m) (Distinct-remove k m d)

-- The sum of the lengths of the lists that a map holds.
module _ {ℓ} {A : Type ℓ} where
  abbrev pub total : List (ℕ × List A) → ℕ
  total [] = 0
  total ((k, xs) ∷ m) = length xs + total m

  abbrev pub size_of : Option (List A) → ℕ
  size_of none = 0
  size_of (some xs) = length xs

  pub total-insert :
      (k : ℕ) (xs : List A) (m : List (ℕ × List A))
      → total (insert k xs m) + size_of (lookup k m) ≡ total m + length xs
  unfolding insert lookup
  total-insert k xs [] = omega arith
  total-insert k xs ((j, ys) ∷ m) = ground (arith, total-insert k xs m)

  pub total-remove :
      (k : ℕ) (m : List (ℕ × List A))
      → Distinct m
      → total (remove k m) + size_of (lookup k m) ≡ total m
  unfolding remove lookup
  total-remove k [] d = omega arith
  total-remove k ((j, ys) ∷ m) (n, d) = elim (Bool-cases (j == k)) [
    | inl same ↦
        let e : k ≡ j = sym ((==_iff j k).0 same) in
        let here : lookup k m ≡ none = rw e n in
        let absent = remove_absent k m here in rw same (rw absent (omega arith))
    | inr other ↦ rw other (omega (arith, total-remove k m d))
  ]

  pub size_of-le-total : (k : ℕ) (m : List (ℕ × List A)) → size_of (lookup k m) ≤ total m
  size_of-le-total k m = omega (arith, total-insert k [] m)

  -- Keys that hold nothing.
  abbrev pub EmptyAt : List (ℕ × List A) → List ℕ → Type 0
  EmptyAt m [] = Unit
  EmptyAt m (k ∷ ks) = (size_of (lookup k m) ≡ 0) × EmptyAt m ks

  pub EmptyAt-append :
      (m : List (ℕ × List A)) (ks js : List ℕ) → EmptyAt m ks → EmptyAt m js → EmptyAt m (ks ++ js)
  EmptyAt-append m [] js e f = f
  EmptyAt-append m (k ∷ ks) js (z, e) f = (z, EmptyAt-append m ks js e f)

  EmptyAt-remove :
      (k : ℕ) (m : List (ℕ × List A)) (ks : List ℕ) → EmptyAt m ks → EmptyAt (remove k m) ks
  EmptyAt-remove k m [] e = tt
  EmptyAt-remove k m (j ∷ ks) (z, e) =
      (ground (arith, lookup-remove k j m), EmptyAt-remove k m ks e)

  pub total-remove_all :
      (ks : List ℕ) (m : List (ℕ × List A))
      → Distinct m
      → EmptyAt m ks
      → total (remove_all ks m) ≡ total m
  unfolding remove_all
  total-remove_all [] m d e = refl
  total-remove_all (k ∷ ks) m d (z, e) = omega (
    arith,
    z,
    total-remove k m d,
    total-remove_all ks (remove k m) (Distinct-remove k m d) (EmptyAt-remove k m ks e),
  )

  pub EmptyAt-mono :
      (m n : List (ℕ × List A)) (ks : List ℕ)
      → ((k : ℕ) → size_of (lookup k m) ≡ 0 → size_of (lookup k n) ≡ 0)
      → EmptyAt m ks
      → EmptyAt n ks
  EmptyAt-mono m n [] h e = tt
  EmptyAt-mono m n (k ∷ ks) h (z, e) = (h k z, EmptyAt-mono m n ks h e)
