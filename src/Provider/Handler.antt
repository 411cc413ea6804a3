-- ===== src/Provider/Handler.antt =====
-- The body of a controller-runtime handler: it mutates one object, calls other code, and may return
-- early with a result and an error, or panic.
use kubeforce.Base.{ℕ, Bool, true, false, Option, none, some, List, [], ◌∷◌, ◌++◌}
use kubeforce.Api.{Error}
use kubeforce.Provider.Types.{Answer, ok, failed, panicked}

-- `returned after err` is `return ctrl.Result{RequeueAfter: after}, err`.
pub data Exit (A : Type 0) : Type 0 where
  going : A → Exit A
  returned : ℕ → Option Error → Exit A
  crashed : Exit A

-- On an object of type `S`, with the effects in their order.
abbrev pub Handler : Type 0 → Type 0 → Type 0 → Type 0
Handler S E A = S → Exit A × S × List E

module _ {S E A : Type 0} where
  abbrev pub pure : A → Handler S E A
  pure a s = (going a, s, [])

  abbrev pub return : ℕ → Option Error → Handler S E A
  return after err s = (returned after err, s, [])

  -- `return ctrl.Result{}, nil`.
  abbrev pub done : Handler S E A
  done s = (returned 0 none, s, [])

  abbrev pub fail : Error → Handler S E A
  fail e s = (returned 0 (some e), s, [])

  abbrev pub crash : Handler S E A
  crash s = (crashed, s, [])

  abbrev pub and_go : {B : Type 0} → (A → Handler S E B) → Exit A → S → List E → Exit B × S × List E
  and_go f (going a) s es = let (x, s', fs) = f a s in (x, s', es ++ fs)
  and_go f (returned after err) s es = (returned after err, s, es)
  and_go f crashed s es = (crashed, s, es)

  -- The value of a call, or what the handler does on its error.
  abbrev pub on_error : Answer A → (Error → Handler S E A) → Handler S E A
  on_error (ok a) h = pure a
  on_error (failed e) h = h e
  on_error panicked h = crash

infixl 5 ◌>>=◌ ◌>>◌
abbrev pub ◌>>=◌ : {S E A B : Type 0} → Handler S E A → (A → Handler S E B) → Handler S E B
(m >>= f) s = let (x, s', es) = m s in and_go f x s' es

abbrev pub ◌>>◌ : {S E B : Type 0} → Handler S E (Unit {0}) → Handler S E B → Handler S E B
m >> k = m >>= λ _. k

module _ {S E : Type 0} where
  abbrev pub get_object : Handler S E S
  get_object s = (going s, s, [])

  abbrev pub modify : (S → S) → Handler S E (Unit {0})
  modify f s = (going tt, f s, [])

  abbrev pub tell : E → Handler S E (Unit {0})
  tell e s = (going tt, s, e ∷ [])

  -- `if c { m }`.
  abbrev pub when : Bool → Handler S E (Unit {0}) → Handler S E (Unit {0})
  when true m = m
  when false m = pure tt

  -- A call whose error is handled by returning from the function.
  abbrev pub check : Option Error → (Error → Handler S E (Unit {0})) → Handler S E (Unit {0})
  check none h = pure tt
  check (some e) h = h e

-- What the caller of a function on the same object does with the result and the error of it.
abbrev pub and_returned :
    {S E : Type 0}
    → (ℕ → Option Error → Handler S E (Unit {0}))
    → Exit (Unit {0})
    → S
    → List E
    → Exit (Unit {0}) × S × List E
and_returned f (going u) s es = let (x, s', fs) = f 0 none s in (x, s', es ++ fs)
and_returned f (returned after err) s es = let (x, s', fs) = f after err s in (x, s', es ++ fs)
and_returned f crashed s es = (crashed, s, es)

abbrev pub call :
    {S E : Type 0}
    → Handler S E (Unit {0})
    → (ℕ → Option Error → Handler S E (Unit {0}))
    → Handler S E (Unit {0})
call m f s = let (x, s', es) = m s in and_returned f x s' es
