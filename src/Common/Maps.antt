-- ===== src/Common/Maps.antt =====
-- A Go `map[string]V`, as the list of its entries. The program reads a map by key, writes it by key
-- and ranges over it; statements go by `lookup`, which forgets the order of the entries.
use Prim.Native.String.{String}
use mathlib.Core.Path.{◌≡◌, refl}
use mathlib.Core.Bool.{Bool, true, false, ◌&&◌}
use mathlib.Core.Option.{Option, none, some}
use mathlib.Core.List.{List, [], ◌∷◌}
use native.Mathlib.Omega.{arith}
use text.Mathlib.Text.{◌==◌}
use text.Mathlib.TextEquality.{eq_iff}
use kube_vim.Common.Tests.{if◌then◌else◌}

abbrev pub Map {ℓ} : Type ℓ → Type ℓ
Map V = List (String × V)

module _ {ℓ} {V : Type ℓ} where
  -- `value, ok := entries[key]`
  unfoldable pub lookup : String → Map V → Option V
  lookup key [] = none
  lookup key ((name, value) ∷ entries) = if name == key then some value else lookup key entries

  -- `entries[key] = value`
  unfoldable pub insert : String → V → Map V → Map V
  insert key value [] = (key, value) ∷ []
  insert key value ((name, old) ∷ entries) =
      if name == key then (key, value) ∷ entries else (name, old) ∷ insert key value entries

  -- `for k, v := range from { m[k] = v }`
  unfoldable pub insert_all : Map V → Map V → Map V
  unfolding insert
  insert_all [] m = m
  insert_all ((k, v) ∷ from) m = insert_all from (insert k v m)

  -- A map has one entry for a key.
  abbrev pub NodupKeys : Map V → Type ℓ
  NodupKeys [] = Unit
  NodupKeys ((k, _) ∷ m) = (lookup k m ≡ none) × NodupKeys m

  -- A written key holds its new value, and every other key what it held.
  pub lookup-insert :
      (key other : String) (value : V) (entries : Map V)
      → lookup other (insert key value entries)
        ≡ (if key == other then some value else lookup other entries)
  unfolding insert lookup
  lookup-insert key other value [] = refl
  lookup-insert key other value ((name, old) ∷ entries) = ground (
    lookup-insert key other value entries,
    eq_iff name other,
    eq_iff name key,
    eq_iff key other,
    arith,
  )

  -- What the range loop writes wins over what the map held.
  pub lookup-insert_all :
      (j : String) (from m : Map V)
      → NodupKeys from
      → lookup j (insert_all from m) ≡ elim (lookup j from) [ none ↦ lookup j m | some v ↦ some v ]
  unfolding lookup insert_all
  lookup-insert_all j [] m u = refl
  lookup-insert_all j ((k, v) ∷ from) m (fresh, u) =
      ground (arith, eq_iff k j, lookup-insert_all j from (insert k v m) u, lookup-insert k j v m)

-- The value at a key, "" where there is none: `m[k]` as an expression.
unfoldable pub at : String → Map String → String
unfolding lookup
at k m = elim (lookup k m) [ none ↦ "" | some v ↦ v ]

-- A label selector: every pair that it names stands in the labels.
unfoldable pub matches : Map String → Map String → Bool
unfolding lookup
matches [] labels = true
matches ((k, v) ∷ sel) labels =
    elim (lookup k labels) [ none ↦ false | some w ↦ w == v ] && matches sel labels
