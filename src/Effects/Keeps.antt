-- ===== src/Effects/Keeps.antt =====
-- What a method keeps true of the calls made so far, whether it returns or throws: one rule for
-- each way to build a method.
use mathlib.Core.Path.{subst}
use aries_guardianship_agenc.Base.{◌≡◌, ap, ◌∷◌, Bool, true, false, if◌then◌else◌}
use aries_guardianship_agenc.Effects.{
  Result, ok, err, Thrown, Call, Reply, Trace, Env, M, pure, throw, lift, catch, detached, ◌>>=◌,
  perform,
}

pub record Keeps (P : Trace → Type 0) {A : Type 0} (m : M A) : Type 0 where
  pub at : (t : Trace) → P t → P (m t).1

module _ {P : Trace → Type 0} {A : Type 0} where
  pub Keeps-pure : (a : A) → Keeps P (pure a)
  unfolding pure
  Keeps-pure a = record { at = λ t h. h }

  pub Keeps-throw : (e : Thrown) → Keeps P (throw {A = A} e)
  unfolding throw
  Keeps-throw e = record { at = λ t h. h }

  pub Keeps-lift : (r : Result A) → Keeps P (lift r)
  unfolding lift
  Keeps-lift r = record { at = λ t h. h }

  pub Keeps-if : (b : Bool) (m n : M A) → Keeps P m → Keeps P n → Keeps P (if b then m else n)
  Keeps-if true m n hm hn = hm
  Keeps-if false m n hm hn = hn

  pub Keeps-detached : (m : M A) → Keeps P m → Keeps P (detached m)
  unfolding detached
  Keeps-detached m hm = record { at = λ t h. hm.at t h }

  pub Keeps-catch :
      (m : M A) (h : Thrown → M A)
      → Keeps P m
      → ((e : Thrown) → Keeps P (h e))
      → Keeps P (catch m h)
  unfolding catch
  Keeps-catch m h hm hh = record { at = λ t p. let (r, t') = m t in recovered r t' (hm.at t p) }
    where
      recovered : (r : Result A) (t : Trace) → P t → P (catch (λ s. (r, s)) h t).1
      recovered (ok a) t p = p
      recovered (err e) t p = (hh e).at t p

module _ {P : Trace → Type 0} {A B : Type 0} where
  pub Keeps-bind :
      (m : M A) (f : A → M B) → Keeps P m → ((a : A) → Keeps P (f a)) → Keeps P (m >>= f)
  unfolding ◌>>=◌
  Keeps-bind m f hm hf = record { at = λ t p. let (r, t') = m t in continued r t' (hm.at t p) }
    where
      continued : (r : Result A) (t : Trace) → P t → P ((lift r >>= f) t).1
      continued (ok a) t p = (hf a).at t p
      continued (err e) t p = p

pub Keeps-perform :
    {P : Trace → Type 0} (env : Env) (c : Call)
    → ((t : Trace) → P t → P (c ∷ t))
    → Keeps P (perform env c)
unfolding perform
Keeps-perform env c h = record { at = λ t p. h t p }

pub ruleset keeps_rules = (
  Keeps-pure, Keeps-throw, Keeps-lift, Keeps-if, Keeps-detached, Keeps-catch, Keeps-bind,
  Keeps-perform,
)

pub Keeps-after :
    {P : Trace → Type 0} {A : Type 0} {m : M A} {r : Result A} {t t' : Trace}
    → Keeps P m
    → m t ≡ (r, t')
    → P t
    → P t'
Keeps-after {P} {t} keeps e p = subst P (ap (λ o. o.1) e) (keeps.at t p)

-- What holds behind a call, whatever its answer, and is kept by the rest.
pub Keeps-behind :
    {P : Trace → Type 0} {B : Type 0} (env : Env) (c : Call) (f : Reply c → M B) (t : Trace)
    → P (c ∷ t)
    → ((a : Reply c) → Keeps P (f a))
    → P ((perform env c >>= f) t).1
unfolding perform ◌>>=◌
Keeps-behind {P} env c f t p hf = continued (env.reply t c)
  where
    continued : (r : Result (Reply c)) → P ((lift r >>= f) (c ∷ t)).1
    continued (ok a) = (hf a).at (c ∷ t) p
    continued (err e) = p
