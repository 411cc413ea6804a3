-- ===== src/Provider/Call.antt =====
-- A function of Go with a value and an error, on the object of a handler, that calls other code.
use kubeforce.Base.{Option, none, some, List, [], ◌∷◌, ◌++◌}
use kubeforce.Api.{Error}
use kubeforce.Provider.Types.{Answer, ok, failed, panicked}
use kubeforce.Provider.Handler.{Exit, going, crashed, Handler}

abbrev pub Call : Type 0 → Type 0 → Type 0 → Type 0
Call S E A = S → Answer A × S × List E

abbrev and_call :
    {S E A B : Type 0} → (A → Call S E B) → Answer A → S → List E → Answer B × S × List E
and_call f (ok a) s es = let (x, s', fs) = f a s in (x, s', es ++ fs)
and_call f (failed e) s es = (failed e, s, es)
and_call f panicked s es = (panicked, s, es)

infixl 5 ◌>>=◌ ◌>>◌
abbrev pub ◌>>=◌ : {S E A B : Type 0} → Call S E A → (A → Call S E B) → Call S E B
(m >>= f) s = let (x, s', es) = m s in and_call f x s' es

abbrev pub ◌>>◌ : {S E B : Type 0} → Call S E (Unit {0}) → Call S E B → Call S E B
m >> k = m >>= λ _. k

module _ {S E : Type 0} where
  abbrev pub give : {A : Type 0} → A → Call S E A
  give a s = (ok a, s, [])

  abbrev pub lift : {A : Type 0} → Answer A → Call S E A
  lift a s = (a, s, [])

  abbrev pub change : (S → S) → Call S E (Unit {0})
  change f s = (ok tt, f s, [])

  abbrev pub emit : E → Call S E (Unit {0})
  emit e s = (ok tt, s, e ∷ [])

  -- A call that answers with an error only, and what is made of the error.
  abbrev pub demand : Option Error → (Error → Error) → Call S E (Unit {0})
  demand none f s = (ok tt, s, [])
  demand (some e) f s = (failed (f e), s, [])

  abbrev pub to_handler :
      {A : Type 0} → (Error → Handler S E A) → Answer A → S → List E → Exit A × S × List E
  to_handler h (ok a) s es = (going a, s, es)
  to_handler h (failed e) s es = let (x, s', fs) = h e s in (x, s', es ++ fs)
  to_handler h panicked s es = (crashed, s, es)

  -- The value of the function, or what the handler does on its error.
  abbrev pub run : {A : Type 0} → Call S E A → (Error → Handler S E A) → Handler S E A
  run m h s = let (x, s', es) = m s in to_handler h x s' es

-- What `errors.Wrapf` makes of the error of an answer.
abbrev pub wrapped : {A : Type 0} → (Error → Error) → Answer A → Answer A
wrapped f (ok a) = ok a
wrapped f (failed e) = failed (f e)
wrapped f panicked = panicked
