-- ===== src/Effects/Process.antt =====
-- A method as a process: it ends, or it makes a call and goes on with the answer. Between two calls
-- other methods may run, which a function of the calls alone does not show.

use aries_guardianship_agenc.Base.{◌≡◌, refl, ◌∙◌, ◌∷◌, [], Bool, true, false, if◌then◌else◌}
use aries_guardianship_agenc.Effects.Laws.{CallFree}
use aries_guardianship_agenc.Effects.{
  Result, ok, err, Call, Reply, Trace, Env, M, pure, lift, ◌>>=◌, perform, continue,
}

pub data Process (A : Type 0) : Type 0 where
  ends : Result A → Process A
  asks : (c : Call) → (Reply c → Process A) → Process A

abbrev pub asked : (c : Call) → Process (Reply c)
asked c = asks c (λ a. ends (ok a))

module _ {A B : Type 0} where
  infixl 5 ◌then◌
  -- `await` of the first, and an exception of it ends both.
  abbrev pub ◌then◌ : Process A → (A → Process B) → Process B
  ends (ok a) then f = f a
  ends (err e) then f = ends (err e)
  asks c k then f = asks c (λ a. k a then f)

-- A process that runs alone.
unfoldable pub run : Env → {A : Type 0} → Process A → M A
run env (ends r) t = (r, t)
run env (asks c k) t = continue (env.reply t c) (λ a. run env (k a)) (c ∷ t)

module _ (env : Env) where
  -- The process that runs alone does what the method does.
  pub record Runs {A : Type 0} (p : Process A) (m : M A) : Type 0 where
    pub at : (t : Trace) → run env p t ≡ m t

  module _ {A : Type 0} where
    pub Runs-ends : (r : Result A) → Runs (ends r) (lift r)
    unfolding run lift
    Runs-ends r = record { at = λ t. refl }

    pub Runs-pure : (a : A) → Runs (ends (ok a)) (pure a)
    unfolding run pure
    Runs-pure a = record { at = λ t. refl }

    pub Runs-if :
        (b : Bool) (p q : Process A) (m n : M A)
        → Runs p m
        → Runs q n
        → Runs (if b then p else q) (if b then m else n)
    Runs-if true p q m n h k = h
    Runs-if false p q m n h k = k

  module _ {A B : Type 0} where
    -- A result that is computed.
    pub Runs-then :
        (r : Result A) (f : A → Process B) (g : A → M B)
        → ((a : A) → Runs (f a) (g a))
        → Runs (ends r then f) (lift r >>= g)
    unfolding run ◌>>=◌
    Runs-then (ok a) f g h = record { at = λ t. (h a).at t }
    Runs-then (err e) f g h = record { at = λ t. refl }

    pub Runs-after : (p : Process B) (a : A) (g : A → M B) → Runs p (g a) → Runs p (pure a >>= g)
    unfolding ◌>>=◌
    Runs-after p a g h = record { at = λ t. h.at t }

    -- A method without calls, of which the process has the result.
    pub Runs-CallFree :
        (m : M A) (f : A → Process B) (g : A → M B)
        → CallFree m
        → ((a : A) → Runs (f a) (g a))
        → Runs (ends (m []).0 then f) (m >>= g)
    unfolding ◌>>=◌
    Runs-CallFree m f g free h = record {
      at = λ t. (Runs-then (m []).0 f g h).at t ∙ rw (free.at t) refl;
    }

    pub Runs-assoc :
        {C : Type 0} (p : Process C) (m : M A) (f : A → M B) (g : B → M C)
        → Runs p (m >>= λ a. f a >>= g)
        → Runs p (m >>= f >>= g)
    unfolding ◌>>=◌
    Runs-assoc p m f g h = record { at = λ t. let (r, t') = m t in h.at t ∙ same r t' }
      where
        same : (r : Result A) (t : Trace) → (lift r >>= λ a. f a >>= g) t ≡ (lift r >>= f >>= g) t
        same (ok a) t = refl
        same (err e) t = refl

  -- A call.
  pub Runs-asks :
      {B : Type 0} (c : Call) (k : Reply c → Process B) (g : Reply c → M B)
      → ((a : Reply c) → Runs (k a) (g a))
      → Runs (asks c k) (perform env c >>= g)
  unfolding run ◌>>=◌
  Runs-asks c k g h = record { at = λ t. answered t (env.reply t c) }
    where
      answered :
          (t : Trace) (r : Result (Reply c))
          → continue r (λ a. run env (k a)) (c ∷ t) ≡ continue r g (c ∷ t)
      answered t (ok a) = (h a).at (c ∷ t)
      answered t (err e) = refl
