-- ===== src/Conditions/Lookup.antt =====
-- What `Get` and the tests on a condition answer after `Set`, `MarkTrue`, `MarkFalse` and `Delete`
-- (agent/pkg/util/conditions).
use kubeforce.Base.{
  ℕ, String, true, false, Option, none, some, List, [], ◌∷◌, ◌++◌, ◌≡◌, refl, ◌≢◌, arith, inl, inr,
  str_eq, str_eq_iff, str_eq_refl, if◌then◌else◌, Bool-cases, Option-cases,
}
use kubeforce.Conditions.{
  Condition, Conditions, status_eq, condition_true, ConditionStatus, condition_true, get, has,
  is_true, is_false, has_same_state, set_existing, set, appended, truncate_second, true_condition,
  false_condition, mark_true, mark_false, delete,
}

status_eq→eq : (s t : ConditionStatus) → status_eq s t ≡ true → s ≡ t
status_eq→eq s t h = ground arith

pub status_eq_refl : (s : ConditionStatus) → status_eq s s ≡ true
status_eq_refl s = ground arith

-- Two conditions of one state agree in all but the transition time.
pub record SameState (c d : Condition) : Type 0 where
  pub type_eq : c.type ≡ d.type
  pub status : c.status ≡ d.status
  pub reason : c.reason ≡ d.reason
  pub message : c.message ≡ d.message

pub has_same_state-SameState : (c d : Condition) → has_same_state c d ≡ true → SameState c d
unfolding has_same_state
has_same_state-SameState c d h = ground (
  arith,
  str_eq_iff c.type d.type,
  status_eq→eq c.status d.status,
  str_eq_iff c.reason d.reason,
  str_eq_iff c.message d.message,
)

pub SameState-has_same_state : (c d : Condition) → SameState c d → has_same_state c d ≡ true
unfolding has_same_state
SameState-has_same_state c d h = ground (
  arith,
  str_eq_iff c.type d.type,
  status_eq_refl c.status,
  str_eq_iff c.reason d.reason,
  str_eq_iff c.message d.message,
)

pub get-append_none :
    (cs : Conditions) (c : Condition) (k t : String)
    → c.type ≡ k
    → get cs k ≡ none
    → get (cs ++ (c ∷ [])) t ≡ (if str_eq k t then some c else get cs t)
unfolding get
get-append_none [] c k t p h = rw (← p) refl
get-append_none (d ∷ cs) c k t p h =
    ground
      (arith, str_eq_iff k t, str_eq_iff d.type t, str_eq_iff d.type k, get-append_none cs c k t)

pub appended-type : (now : ℕ) (c : Condition) → (appended now c).type ≡ c.type
appended-type now c = ground arith

pub get-set_existing_ne :
    (now : ℕ) (c : Condition) (cs : Conditions) (t : String)
    → c.type ≢ t
    → get (set_existing now c cs) t ≡ get cs t
unfolding get set_existing
get-set_existing_ne now c [] t n = refl
get-set_existing_ne now c (d ∷ cs) t n = ground (
  arith,
  str_eq_iff c.type t,
  str_eq_iff d.type t,
  str_eq_iff d.type c.type,
  get-set_existing_ne now c cs t,
)

get-set_existing_hit :
    (now : ℕ) (c : Condition) (cs : Conditions) (old : Condition)
    → get cs c.type ≡ some old
    → get (set_existing now c cs) c.type
      ≡ some (
          if has_same_state old c
          then old
          else record c { last_transition_time = truncate_second now })
unfolding get set_existing
get-set_existing_hit now c [] old h = cc
get-set_existing_hit now c (d ∷ cs) old h =
    ground (arith, str_eq_refl c.type, str_eq_iff d.type c.type, get-set_existing_hit now c cs old)

-- What `Set` leaves under the type of the condition: the old condition if its state is the same,
-- and otherwise the given one, stamped with the time of the change.
abbrev pub written : ℕ → Option Condition → Condition → Condition
written now none c = appended now c
written now (some old) c =
    if has_same_state old c then old else record c { last_transition_time = truncate_second now }

-- For every time, list, condition and type: after `Set` a lookup of the condition's own type finds
-- the old condition if it had the same state, else the given condition with the transition time
-- stamped (an appended one keeps a time that is already set); any other type is looked up as before.
pub get-set :
    (now : ℕ) (cs : Conditions) (c : Condition) (t : String)
    → get (set now cs c) t
      ≡ (if str_eq c.type t then some (written now (get cs c.type) c) else get cs t)
unfolding set
get-set now cs c t = elim (Option-cases (get cs c.type)) [
  | inl e ↦ rw (e, set) (get-append_none cs (appended now c) c.type t (appended-type now c) e)
  | inr (old, e) ↦ elim (Bool-cases (str_eq c.type t)) [
    | inl same ↦
        let p : c.type ≡ t = (str_eq_iff c.type t).0 same in
        rw (e, set) (rw same (rw (← p) (get-set_existing_hit now c cs old e)))
    | inr other ↦
        rw (e, set)
          (rw other (get-set_existing_ne now c cs t (λ p. cc ((str_eq_iff c.type t).1 p))))
  ]
]

written-status :
    (now : ℕ) (o : Option Condition) (c : Condition) → (written now o c).status ≡ c.status
written-status now none c = ground arith
written-status now (some old) c = ground (arith, has_same_state-SameState old c)

get-set_status :
    (now : ℕ) (cs : Conditions) (c : Condition)
    → (d : Condition) × (get (set now cs c) c.type ≡ some d) × (d.status ≡ c.status)
get-set_status now cs c =
    (written now (get cs c.type) c, rw (get-set, str_eq_refl), written-status now (get cs c.type) c)

-- A type is true after `Set` if it is the condition's own and that is true, or if it was true.
pub is_true-set :
    (now : ℕ) (cs : Conditions) (c : Condition) (t : String)
    → is_true (set now cs c) t
      ≡ (if str_eq c.type t then status_eq c.status condition_true else is_true cs t)
unfolding is_true
is_true-set now cs c t = rw get-set (ground (arith, written-status now (get cs c.type) c))

-- After `MarkTrue` the condition is true and not false, whatever it was before, and every other type
-- is looked up as before, with its status, reason, message and time.
pub is_true-mark_true :
    (now : ℕ) (cs : Conditions) (t u : String)
    → (is_true (mark_true now cs t) t ≡ true)
      × (is_false (mark_true now cs t) t ≡ false)
      × (t ≢ u → get (mark_true now cs t) u ≡ get cs u)
unfolding is_true is_false mark_true true_condition
is_true-mark_true now cs t u =
    let (d, found, s) = get-set_status now cs (true_condition t) in
    (
      rw found (ground arith),
      rw found (ground arith),
      λ n. rw get-set (ground (arith, str_eq_iff t u)),
    )

-- After `MarkFalse` the condition is false and not true, whatever it was before, and every other
-- type is judged as before.
pub is_true-mark_false :
    (sprintf : String → List String → String) (now : ℕ) (cs : Conditions)
    (t u reason format : String) (args : List String)
    → let cs' = mark_false sprintf now cs t reason format args in
      (is_false cs' t ≡ true) × (is_true cs' t ≡ false) × (t ≢ u → is_true cs' u ≡ is_true cs u)
unfolding is_true is_false mark_false false_condition
is_true-mark_false sprintf now cs t u reason format args =
    let (d, found, s) = get-set_status now cs (false_condition sprintf t reason format args) in
    (
      rw found (ground arith),
      rw found (ground arith),
      λ n. rw get-set (ground (arith, str_eq_iff t u)),
    )

-- For every list and types: after `Delete` the deleted type is not found, and any other type is
-- looked up as before.
pub get-delete :
    (cs : Conditions) (t u : String) → get (delete cs t) u ≡ (if str_eq t u then none else get cs u)
unfolding get delete
get-delete [] t u = ground arith
get-delete (c ∷ cs) t u =
    ground (arith, str_eq_iff t u, str_eq_iff c.type t, str_eq_iff c.type u, get-delete cs t u)

delete-append :
    (cs : Conditions) (c : Condition) (k : String)
    → c.type ≡ k
    → get cs k ≡ none
    → delete (cs ++ (c ∷ [])) k ≡ cs
unfolding get delete
delete-append [] c k p h = ground (arith, str_eq_iff c.type k)
delete-append (d ∷ cs) c k p h = ground (arith, delete-append cs c k)

-- If a type has no condition, then to set one and to delete it again gives back the list.
pub delete-set :
    (now : ℕ) (cs : Conditions) (c : Condition)
    → has cs c.type ≡ false
    → delete (set now cs c) c.type ≡ cs
unfolding set has
delete-set now cs c h = elim (Option-cases (get cs c.type)) [
  | inl e ↦ rw (e, set) (delete-append cs (appended now c) c.type (appended-type now c) e)
  | inr (old, e) ↦ absurd (ground arith)
]
