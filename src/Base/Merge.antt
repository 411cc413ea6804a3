-- ===== src/Base/Merge.antt =====
-- Go maps with distinct keys, and what a merge of two of them holds.
use Prim.Native.String.{String}
use mathlib.Core.Path.{◌≡◌, refl}
use mathlib.Core.List.{[], ◌∷◌}
use mathlib.Core.Option.{Option, none, some}
use native.Mathlib.Omega.{arith}
use kubeforce.Base.Tests.{str_eq_iff, str_eq_refl}
use kubeforce.Base.Lists.{All}
use kubeforce.Base.Maps.{StringMap, lookup, insert, merge, lookup-insert}

-- The keys of a Go map are distinct.
abbrev pub Distinct {ℓ} : {V : Type ℓ} → StringMap V → Type ℓ
Distinct [] = Unit
Distinct ((k, v) ∷ m) = (lookup k m ≡ none) × Distinct m

abbrev pub first_some {ℓ} : {A : Type ℓ} → Option A → Option A → Option A
first_some none b = b
first_some (some a) b = some a

pub lookup-merge {ℓ} :
    {V : Type ℓ} (from to : StringMap V) (key : String)
    → Distinct from
    → lookup key (merge from to) ≡ first_some (lookup key from) (lookup key to)
unfolding lookup merge
lookup-merge [] to key d = refl
lookup-merge ((k, v) ∷ from) to key d = ground (
  arith,
  lookup-merge from (insert k v to) key d.1,
  lookup-insert k key v to,
  str_eq_iff k key,
  d.0,
)

insert_same {ℓ} :
    {V : Type ℓ} (k : String) (v : V) (m : StringMap V) → lookup k m ≡ some v → insert k v m ≡ m
unfolding lookup insert
insert_same k v [] h = ground arith
insert_same k v ((j, w) ∷ m) h = ground (arith, str_eq_iff j k, insert_same k v m)

abbrev pub Within {ℓ} : {V : Type ℓ} → StringMap V → StringMap V → Type ℓ
Within to = All (λ e. lookup e.0 to ≡ some e.1)

pub merge_same {ℓ} : {V : Type ℓ} (from to : StringMap V) → Within to from → merge from to ≡ to
unfolding merge
merge_same [] to w = refl
merge_same ((k, v) ∷ from) to w = rw (insert_same k v to w.0) (merge_same from to w.1)

Within-cons {ℓ} :
    {V : Type ℓ} (k : String) (v : V) (m from : StringMap V)
    → lookup k m ≡ none
    → Within m from
    → Within ((k, v) ∷ m) from
unfolding lookup
Within-cons k v m [] h w = tt
Within-cons k v m ((j, u) ∷ from) h w =
    (ground (arith, w.0, str_eq_iff k j), Within-cons k v m from h w.1)

pub Distinct-Within {ℓ} : {V : Type ℓ} (m : StringMap V) → Distinct m → Within m m
unfolding lookup
Distinct-Within [] d = tt
Distinct-Within ((k, v) ∷ m) d =
    (ground (arith, str_eq_refl k), Within-cons k v m m d.0 (Distinct-Within m d.1))

-- Merging the same entries once more changes nothing.
Within-merge {ℓ} :
    {V : Type ℓ} (from part to : StringMap V)
    → Within from part
    → Distinct from
    → Within (merge from to) part
unfolding lookup
Within-merge from [] to w d = tt
Within-merge from ((k, v) ∷ part) to w d =
    (ground (arith, lookup-merge from to k d, w.0), Within-merge from part to w.1 d)

pub merge-merge {ℓ} :
    {V : Type ℓ} (from to : StringMap V)
    → Distinct from
    → merge from (merge from to) ≡ merge from to
merge-merge from to d =
    merge_same from (merge from to) (Within-merge from from to (Distinct-Within from d) d)
