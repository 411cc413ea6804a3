-- ===== src/Base/Sort.antt =====
-- Go's `sort.SliceStable` as an insertion sort, and the last element of a slice.
use mathlib.Core.Path.{◌≡◌, refl, ◌∙◌}
use mathlib.Core.Logic.{inl, inr}
use mathlib.Core.Bool.{Bool, true, false}
use mathlib.Core.List.{List, [], ◌∷◌, Perm}
use mathlib.Core.List.Perm
use mathlib.Core.Option.{Option, none, some}
use native.Mathlib.Omega.{arith}
use kubeforce.Base.Tests.{if◌then◌else◌, Bool-cases}
use kubeforce.Base.Lists.{All}

module _ {ℓ} {A : Type ℓ} where
  -- `xs[len(xs)-1]`.
  abbrev pub last : List A → Option A
  last [] = none
  last (x ∷ []) = some x
  last (x ∷ y ∷ xs) = last (y ∷ xs)

module _ {ℓ} {A : Type ℓ} (less : A → A → Bool) where
  unfoldable pub insert_stable : A → List A → List A
  insert_stable x [] = x ∷ []
  insert_stable x (y ∷ ys) =
      let rest = insert_stable x ys in if less y x then y ∷ rest else x ∷ y ∷ ys

  unfoldable pub sort_stable : List A → List A
  sort_stable [] = []
  sort_stable (x ∷ xs) = insert_stable x (sort_stable xs)

  -- No element is less than one before it.
  abbrev pub Sorted : List A → Type ℓ
  Sorted [] = Unit
  Sorted (x ∷ xs) = All (λ y. less y x ≡ false) xs × Sorted xs

  -- What `sort.SliceStable` asks of its `less`.
  pub record IsOrder : Type ℓ where
    pub asymm : (a b : A) → less a b ≡ true → less b a ≡ false
    pub trans : (a b c : A) → less b a ≡ false → less c b ≡ false → less c a ≡ false

  insert_perm : (x : A) (xs : List A) → Perm (insert_stable x xs) (x ∷ xs)
  unfolding insert_stable
  insert_perm x [] = Perm.refl _
  insert_perm x (y ∷ ys) = elim (Bool-cases (less y x)) [
    | inl e ↦ rw e (Perm.trans (Perm.cons y (insert_perm x ys)) (Perm.swap x y ys))
    | inr e ↦ rw e (Perm.refl _)
  ]

  -- Sorting keeps the elements, with their multiplicity.
  pub sort_stable-perm : (xs : List A) → Perm (sort_stable xs) xs
  unfolding sort_stable
  sort_stable-perm [] = Perm.refl _
  sort_stable-perm (x ∷ xs) =
      Perm.trans (insert_perm x (sort_stable xs)) (Perm.cons x (sort_stable-perm xs))

module _ {ℓ} {A : Type ℓ} {less : A → A → Bool} (o : IsOrder less) where
  All-trans :
      (x y : A) (ys : List A)
      → less y x ≡ false
      → All (λ z. less z y ≡ false) ys
      → All (λ z. less z x ≡ false) ys
  All-trans x y [] h a = tt
  All-trans x y (z ∷ ys) h a = (o.trans x y z h a.0, All-trans x y ys h a.1)

  All-insert :
      (x y : A) (ys : List A)
      → less x y ≡ false
      → All (λ z. less z y ≡ false) ys
      → All (λ z. less z y ≡ false) (insert_stable less x ys)
  unfolding insert_stable
  All-insert x y [] h a = (h, tt)
  All-insert x y (z ∷ ys) h a = ground (arith, All-insert x y ys h a.1)

  insert_stable-Sorted :
      (x : A) (ys : List A) → Sorted less ys → Sorted less (insert_stable less x ys)
  unfolding insert_stable
  insert_stable-Sorted x [] s = (tt, tt)
  insert_stable-Sorted x (y ∷ ys) s = elim (Bool-cases (less y x)) [
    | inl e ↦ rw e (All-insert x y ys (o.asymm y x e) s.0, insert_stable-Sorted x ys s.1)
    | inr e ↦ rw e ((e, All-trans x y ys e s.0), s)
  ]

  -- The result of the sort has no element before a lesser one.
  pub sort_stable-Sorted : (xs : List A) → Sorted less (sort_stable less xs)
  unfolding sort_stable
  sort_stable-Sorted [] = tt
  sort_stable-Sorted (x ∷ xs) = insert_stable-Sorted x (sort_stable less xs) (sort_stable-Sorted xs)

-- The element that a stable sort puts last: none is greater, and of equal ones it is the last.
abbrev pub later_of {ℓ} : {A : Type ℓ} → (A → A → Bool) → A → Option A → A
later_of less x none = x
later_of less x (some y) = if less y x then x else y

abbrev pub latest {ℓ} : {A : Type ℓ} → (A → A → Bool) → List A → Option A
latest less [] = none
latest less (x ∷ xs) = some (later_of less x (latest less xs))

module _ {ℓ} {A : Type ℓ} {less : A → A → Bool} (o : IsOrder less) where
  last-cons-insert :
      (x y : A) (ys : List A) → last (y ∷ insert_stable less x ys) ≡ last (insert_stable less x ys)
  unfolding insert_stable
  last-cons-insert x y [] = refl
  last-cons-insert x y (z ∷ zs) = ground arith

  last-All :
      (y z : A) (zs : List A)
      → All (λ u. less u y ≡ false) (z ∷ zs)
      → (l : A) × (last (z ∷ zs) ≡ some l) × (less l y ≡ false)
  last-All y z [] a = (z, refl, a.0)
  last-All y z (u ∷ zs) a = last-All y u zs a.1

  last-insert_stable :
      (x : A) (ys : List A)
      → Sorted less ys
      → last (insert_stable less x ys) ≡ some (later_of less x (last ys))
  unfolding insert_stable
  last-insert_stable x [] s = refl
  last-insert_stable x (y ∷ []) s = ground arith
  last-insert_stable x (y ∷ z ∷ zs) s = elim (Bool-cases (less y x)) [
    | inl e ↦ rw e (last-cons-insert x y (z ∷ zs) ∙ last-insert_stable x (z ∷ zs) s.1)
    | inr e ↦
        let (l, found, above) = last-All y z zs s.0 in
        let above' : less l x ≡ false = o.trans x y l e above in rw e (rw found (rw above'))
  ]

  pub last-sort_stable : (xs : List A) → last (sort_stable less xs) ≡ latest less xs
  unfolding sort_stable
  last-sort_stable [] = refl
  last-sort_stable (x ∷ xs) =
      rw (last-insert_stable x (sort_stable less xs) (sort_stable-Sorted o xs))
        (rw (last-sort_stable xs))
