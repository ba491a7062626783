-- ===== src/Prelude/Texts.antt =====
-- Sets and maps keyed by text: Go's `map[string]bool` and `map[string]V` as lists.
use Prim.Native.String.{String}
use Prim.Native.Nat.{ℕ, suc, ◌+◌}
use mathlib.Core.Path.{◌≡◌, refl}
use mathlib.Core.Bool.{Bool, true, false, ◌||◌, ◌&&◌, not}
use mathlib.Core.List.{List, [], ◌∷◌, ◌++◌}
use mathlib.Core.Option.{Option, none, some}
use native.Mathlib.Omega.{arith}
use text.Mathlib.Text.{◌==◌}
use text.Mathlib.TextEquality.{eq_iff}
use agentic.Prelude.Tests.{if◌then◌else◌}

unfoldable pub contains : String → List String → Bool
contains k [] = false
contains k (x ∷ xs) = x == k || contains k xs

pub contains-append :
    (k : String) (xs ys : List String) → contains k (xs ++ ys) ≡ (contains k xs || contains k ys)
unfolding contains
contains-append k [] ys = refl
contains-append k (x ∷ xs) ys = ground (arith, contains-append k xs ys)

-- No text stands twice.
unfoldable pub distinct : List String → Bool
distinct [] = true
distinct (x ∷ xs) = not (contains x xs) && distinct xs

module _ {κ} {Value : Type κ} where
  -- `m[key]`, with the second result of the two-value form.
  unfoldable pub lookup : String → List (String × Value) → Option Value
  lookup key [] = none
  lookup key ((slot, value) ∷ rest) =
      let later = lookup key rest in if slot == key then some value else later

  -- `m[key] = value`, in the place of an entry that is there.
  unfoldable pub insert : String → Value → List (String × Value) → List (String × Value)
  insert key value [] = (key, value) ∷ []
  insert key value ((slot, old) ∷ rest) =
      let later = insert key value rest in
      if slot == key then (slot, value) ∷ rest else (slot, old) ∷ later

  pub lookup-insert :
      (key other : String) (value : Value) (entries : List (String × Value))
      → lookup other (insert key value entries)
        ≡ (if key == other then some value else lookup other entries)
  unfolding insert lookup
  lookup-insert key other value [] = refl
  lookup-insert key other value ((slot, old) ∷ rest) = ground (
    arith,
    lookup-insert key other value rest,
    eq_iff slot other,
    eq_iff key other,
    eq_iff slot key,
  )

-- How often a text stands in a list.
unfoldable pub count : String → List String → ℕ
count k [] = 0
count k (x ∷ xs) = if x == k then suc (count k xs) else count k xs

pub count-append : (k : String) (xs ys : List String) → count k (xs ++ ys) ≡ count k xs + count k ys
unfolding count
count-append k [] ys = omega arith
count-append k (x ∷ xs) ys = ground (arith, count-append k xs ys)

pub count_of_absent : (k : String) (xs : List String) → contains k xs ≡ false → count k xs ≡ 0
unfolding count contains
count_of_absent k [] h = refl
count_of_absent k (x ∷ xs) h = ground (arith, count_of_absent k xs)

pub count_of_distinct :
    (k : String) (xs : List String) → distinct xs ≡ true → contains k xs ≡ true → count k xs ≡ 1
unfolding count contains distinct
count_of_distinct k [] d h = cc
count_of_distinct k (x ∷ xs) d h =
    ground (arith, eq_iff x k, count_of_absent k xs, count_of_distinct k xs)
