-- ===== src/Base/Maps.antt =====
-- Maps and sets of stream identifiers: association lists that hold a key once, and lists.
-- The source uses `FxHashMap` and `FxHashSet`, and depends on no order of theirs.
pub mod Sizes
use Prim.Native.Nat.{ℕ}
use mathlib.Core.Path.{◌≡◌, refl}
use mathlib.Core.Bool.{Bool, true, false, ◌||◌}
use mathlib.Core.Option.{Option, none, some}
use mathlib.Core.List.{List, [], ◌∷◌}
use native.Mathlib.Omega.{arith}
use pywebtransport.Base.Tests.{◌==◌, leb, if◌then◌else◌}

-- Whether a number stands in a list.
abbrev pub contains : ℕ → List ℕ → Bool
contains k [] = false
contains k (x ∷ xs) = x == k || contains k xs

module _ {ℓ} {V : Type ℓ} where
  pub keys : List (ℕ × V) → List ℕ
  keys [] = []
  keys ((other, value) ∷ entries) = other ∷ keys entries

  -- Removes every entry of the key.
  pub remove : ℕ → List (ℕ × V) → List (ℕ × V)
  remove key [] = []
  remove key ((other, old) ∷ entries) =
      let rest = remove key entries in if other == key then rest else (other, old) ∷ rest

  pub insert : ℕ → V → List (ℕ × V) → List (ℕ × V)
  insert key value [] = (key, value) ∷ []
  insert key value ((other, old) ∷ entries) =
      if other == key then (key, value) ∷ entries else (other, old) ∷ insert key value entries

  pub lookup : ℕ → List (ℕ × V) → Option V
  lookup key [] = none
  lookup key ((other, value) ∷ entries) = if other == key then some value else lookup key entries

  pub lookup-remove :
      (key other : ℕ) (entries : List (ℕ × V))
      → lookup other (remove key entries) ≡ (if key == other then none else lookup other entries)
  unfolding lookup remove
  lookup-remove key other [] = ground arith
  lookup-remove key other ((first, old) ∷ entries) = ground (arith, lookup-remove key other entries)

  pub lookup-insert :
      (key other : ℕ) (value : V) (entries : List (ℕ × V))
      → lookup other (insert key value entries)
        ≡ (if key == other then some value else lookup other entries)
  unfolding lookup insert
  lookup-insert key other value [] = refl
  lookup-insert key other value ((first, old) ∷ entries) =
      ground (arith, lookup-insert key other value entries)

  pub lookup_empty : (key : ℕ) (entries : List (ℕ × V)) → entries ≡ [] → lookup key entries ≡ none
  unfolding lookup
  lookup_empty key [] e = refl
  lookup_empty key (x ∷ entries) e = cc

  pub remove-insert :
      (key : ℕ) (value : V) (entries : List (ℕ × V))
      → remove key (insert key value entries) ≡ remove key entries
  unfolding insert remove
  remove-insert key value [] = ground arith
  remove-insert key value ((first, old) ∷ entries) = ground (arith, remove-insert key value entries)

  pub remove_absent :
      (key : ℕ) (entries : List (ℕ × V)) → lookup key entries ≡ none → remove key entries ≡ entries
  unfolding lookup remove
  remove_absent key [] e = refl
  remove_absent key ((first, old) ∷ entries) e = ground (arith, remove_absent key entries)

  pub contains-keys-remove :
      (other key : ℕ) (entries : List (ℕ × V))
      → contains other (keys (remove key entries))
        ≡ (if key == other then false else contains other (keys entries))
  unfolding keys remove
  contains-keys-remove other key [] = ground arith
  contains-keys-remove other key ((first, old) ∷ entries) =
      ground (arith, contains-keys-remove other key entries)

  -- The map without a list of keys.
  unfoldable pub remove_all : List ℕ → List (ℕ × V) → List (ℕ × V)
  remove_all [] entries = entries
  remove_all (key ∷ gone) entries = remove_all gone (remove key entries)

  pub remove_all_empty :
      (gone : List ℕ) (entries : List (ℕ × V))
      → ((other : ℕ) → contains other (keys entries) ≡ true → contains other gone ≡ true)
      → remove_all gone entries ≡ []
  unfolding remove_all keys
  remove_all_empty [] [] h = refl
  remove_all_empty [] ((other, value) ∷ entries) h = ground (arith, h other)
  remove_all_empty (key ∷ gone) entries h =
      remove_all_empty gone (remove key entries)
        (λ other e. ground (arith, h other, contains-keys-remove other key entries))

-- The set without a number.
abbrev pub discard : ℕ → List ℕ → List ℕ
discard k [] = []
discard k (x ∷ xs) = let rest = discard k xs in if x == k then rest else x ∷ rest

-- `sort_unstable`, by insertion.
pub insert_sorted : ℕ → List ℕ → List ℕ
insert_sorted a [] = a ∷ []
insert_sorted a (x ∷ xs) = if leb a x then a ∷ x ∷ xs else x ∷ insert_sorted a xs

pub sort : List ℕ → List ℕ
unfolding insert_sorted
sort [] = []
sort (x ∷ xs) = insert_sorted x (sort xs)

pub contains-insert_sorted :
    (k a : ℕ) (xs : List ℕ) → contains k (insert_sorted a xs) ≡ (a == k || contains k xs)
unfolding insert_sorted
contains-insert_sorted k a [] = refl
contains-insert_sorted k a (x ∷ xs) = ground (arith, contains-insert_sorted k a xs)

pub contains-sort : (k : ℕ) (xs : List ℕ) → contains k (sort xs) ≡ contains k xs
unfolding sort
contains-sort k [] = refl
contains-sort k (x ∷ xs) = ground (arith, contains-insert_sorted k x (sort xs), contains-sort k xs)
