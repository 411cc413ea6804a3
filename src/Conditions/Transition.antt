-- ===== src/Conditions/Transition.antt =====
-- When `Set` writes at all, and that it keeps one condition for each type
-- (agent/pkg/util/conditions/setter.go).
use kubeforce.Base.{
  ℕ, suc, String, true, Option, none, some, [], ◌∷◌, ◌++◌, ◌≡◌, refl, arith, inl, inr, str_eq_iff,
  str_eq_refl, if◌then◌else◌, Option-cases, length, length-append,
}
use kubeforce.Conditions.{
  Condition, Conditions, get, has, has_same_state, set_existing, set, appended, delete,
}
use kubeforce.Conditions.Lookup.{
  SameState, has_same_state-SameState, SameState-has_same_state, written, get-set, get-append_none,
  appended-type, get-set_existing_ne, get-delete,
}

set_existing_same :
    (now : ℕ) (c old : Condition) (cs : Conditions)
    → get cs c.type ≡ some old
    → has_same_state old c ≡ true
    → set_existing now c cs ≡ cs
unfolding get set_existing
set_existing_same now c old [] h s = cc
set_existing_same now c old (d ∷ cs) h s = ground (arith, set_existing_same now c old cs)

-- If the list has a condition of the same type, status, reason and message, then `Set` changes
-- nothing at any time: the old transition time is kept, and so is the place in the list.
pub set_same :
    (now : ℕ) (cs : Conditions) (c old : Condition)
    → get cs c.type ≡ some old
    → SameState old c
    → set now cs c ≡ cs
unfolding set has
set_same now cs c old h s =
    rw (h, set, has) (set_existing_same now c old cs h (SameState-has_same_state old c s))

written-SameState : (now : ℕ) (o : Option Condition) (c : Condition) → SameState (written now o c) c
written-SameState now none c = ground arith
written-SameState now (some old) c = ground (arith, has_same_state-SameState old c)

-- To set the same condition once more, at whatever later time, changes nothing.
pub set-set :
    (now later : ℕ) (cs : Conditions) (c : Condition) → set later (set now cs c) c ≡ set now cs c
set-set now later cs c =
    set_same later (set now cs c) c (written now (get cs c.type) c) (rw (get-set, str_eq_refl))
      (written-SameState now (get cs c.type) c)

-- No type occurs twice.
abbrev pub Unique : Conditions → Type 0
Unique [] = Unit {0}
Unique (c ∷ cs) = (get cs c.type ≡ none) × Unique cs

Unique-append :
    (cs : Conditions) (c : Condition) → get cs c.type ≡ none → Unique cs → Unique (cs ++ (c ∷ []))
unfolding get
Unique-append [] c h u = (refl, tt)
Unique-append (d ∷ cs) c h u = (
  rw (get-append_none cs c c.type d.type refl (ground arith))
      (ground (arith, str_eq_iff c.type d.type, str_eq_iff d.type c.type)),
  Unique-append cs c (ground arith) u.1,
)

set_existing-Unique :
    (now : ℕ) (c : Condition) (cs : Conditions) → Unique cs → Unique (set_existing now c cs)
unfolding set_existing
set_existing-Unique now c [] u = tt
set_existing-Unique now c (d ∷ cs) u = ground (
  arith,
  str_eq_iff d.type c.type,
  set_existing-Unique now c cs,
  get-set_existing_ne now c cs d.type,
)

length-set_existing :
    (now : ℕ) (c : Condition) (cs : Conditions) → length (set_existing now c cs) ≡ length cs
unfolding set_existing
length-set_existing now c [] = refl
length-set_existing now c (d ∷ cs) = ground (arith, length-set_existing now c cs)

-- `Set` keeps the list free of repeated types, and adds an entry only for a type that was absent.
pub set-Unique :
    (now : ℕ) (cs : Conditions) (c : Condition)
    → Unique cs
    → Unique (set now cs c)
      × (length (set now cs c) ≡ (if has cs c.type then length cs else suc (length cs)))
unfolding set has
set-Unique now cs c u = elim (Option-cases (get cs c.type)) [
  | inl e ↦ (
    rw (e, set) (Unique-append cs (appended now c) (rw (appended-type now c) e) u),
    rw (e, set) (omega (arith, length-append {0} cs (appended now c ∷ []))),
  )
  | inr (old, e) ↦
      (rw (e, set) (set_existing-Unique now c cs u), rw (e, set) (length-set_existing now c cs))
]

-- `Delete` keeps the list free of repeated types.
pub delete-Unique : (cs : Conditions) (t : String) → Unique cs → Unique (delete cs t)
unfolding delete
delete-Unique [] t u = tt
delete-Unique (c ∷ cs) t u = ground (arith, delete-Unique cs t u.1, get-delete cs t c.type)
