-- ===== src/Effects/Ensures.antt =====
-- What holds when a method returns: a condition on the calls made before it, and one on its result
-- and the calls made by then. A method that throws ensures nothing here.
use mathlib.Core.Path.{subst}
use aries_guardianship_agenc.Base.{◌≡◌, refl, ◌∷◌, Bool, true, false, if◌then◌else◌}
use aries_guardianship_agenc.Effects.{
  Result, ok, err, Thrown, Call, Reply, Trace, Env, M, pure, throw, lift, catch, ◌>>=◌, perform,
}
use aries_guardianship_agenc.Effects.Keeps.{Keeps}

abbrev pub Post : {A : Type 0} → (A → Trace → Type 0) → Result A × Trace → Type 0
Post Q (ok a, t) = Q a t
Post Q (err e, t) = Unit

pub record Ensures (P : Trace → Type 0) {A : Type 0} (m : M A) (Q : A → Trace → Type 0)
    : Type 0 where
  pub at : (t : Trace) → P t → Post Q (m t)

-- No condition.
abbrev pub Anything : Trace → Type 0
Anything t = Unit

module _ {P : Trace → Type 0} {A : Type 0} where
  pub Ensures-pure :
      (a : A) (Q : A → Trace → Type 0) → ((t : Trace) → P t → Q a t) → Ensures P (pure a) Q
  unfolding pure
  Ensures-pure a Q h = record { at = h }

  pub Ensures-throw : (e : Thrown) (Q : A → Trace → Type 0) → Ensures P (throw e) Q
  unfolding throw
  Ensures-throw e Q = record { at = λ t p. tt }

  pub Ensures-if :
      (b : Bool) (m n : M A) (Q : A → Trace → Type 0)
      → Ensures P m Q
      → Ensures P n Q
      → Ensures P (if b then m else n) Q
  Ensures-if true m n Q hm hn = hm
  Ensures-if false m n Q hm hn = hn

  pub Ensures-kept : (m : M A) → Keeps P m → Ensures P m (λ a. P)
  Ensures-kept m keeps = record { at = λ t p. let (r, t') = m t in kept r t' (keeps.at t p) }
    where
      kept : (r : Result A) (t : Trace) → P t → Post {A = A} (λ a. P) (r, t)
      kept (ok a) t p = p
      kept (err e) t p = tt

  -- On a result that is known the condition holds.
  pub Ensures-returned :
      {m : M A} {Q : A → Trace → Type 0} {a : A} {t t' : Trace}
      → Ensures P m Q
      → P t
      → m t ≡ (ok a, t')
      → Q a t'
  Ensures-returned {Q} {t} ensures p e = subst (Post Q) e (ensures.at t p)

module _ {P : Trace → Type 0} {A B : Type 0} where
  pub Ensures-bind :
      (m : M A) (f : A → M B) (Q : A → Trace → Type 0) (R : B → Trace → Type 0)
      → Ensures P m Q
      → ((a : A) → Ensures (Q a) (f a) R)
      → Ensures P (m >>= f) R
  unfolding ◌>>=◌
  Ensures-bind m f Q R hm hf = record {
    at = λ t p. let (r, t') = m t in continued r t' (hm.at t p);
  }
    where
      continued : (r : Result A) (t : Trace) → Post Q (r, t) → Post R ((lift r >>= f) t)
      continued (ok a) t q = (hf a).at t q
      continued (err e) t q = tt

  -- The first step's outcome does not matter.
  pub Ensures-then :
      (m : M A) (f : A → M B) (R : B → Trace → Type 0)
      → ((a : A) → Ensures Anything (f a) R)
      → Ensures P (m >>= f) R
  unfolding ◌>>=◌
  Ensures-then m f R hf = record { at = λ t p. let (r, t') = m t in continued r t' }
    where
      continued : (r : Result A) (t : Trace) → Post R ((lift r >>= f) t)
      continued (ok a) t = (hf a).at t tt
      continued (err e) t = tt

-- A call that is answered stands in front of the calls before it.
pub Ensures-perform :
    {P : Trace → Type 0} (env : Env) (c : Call) (Q : Reply c → Trace → Type 0)
    → ((t : Trace) (a : Reply c) → P t → env.reply t c ≡ ok a → Q a (c ∷ t))
    → Ensures P (perform env c) Q
unfolding perform
Ensures-perform {P} env c Q h = record { at = λ t p. answered t p (env.reply t c) refl }
  where
    answered : (t : Trace) → P t → (r : Result (Reply c)) → env.reply t c ≡ r → Post Q (r, c ∷ t)
    answered t p (ok a) e = h t a p e
    answered t p (err x) e = tt

-- A condition that does not speak of the calls is a fact.
pub Ensures-given :
    {F : Type 0} {A : Type 0} (m : M A) (Q : A → Trace → Type 0)
    → (F → Ensures Anything m Q)
    → Ensures (λ t. F) m Q
Ensures-given m Q h = record { at = λ t f. (h f).at t tt }

-- The handler starts from any calls.
pub Ensures-catch :
    {P : Trace → Type 0} {A : Type 0} (m : M A) (h : Thrown → M A) (Q : A → Trace → Type 0)
    → Ensures P m Q
    → ((e : Thrown) → Ensures Anything (h e) Q)
    → Ensures P (catch m h) Q
unfolding catch
Ensures-catch {A} m h Q hm hh = record { at = λ t p. let (r, t') = m t in caught r t' (hm.at t p) }
  where
    caught : (r : Result A) (t : Trace) → Post Q (r, t) → Post Q (catch (λ s. (r, s)) h t)
    caught (ok a) t q = q
    caught (err e) t q = (hh e).at t tt

-- A result that is computed.
pub Ensures-lift :
    {P : Trace → Type 0} {A : Type 0} (r : Result A) (Q : A → Trace → Type 0)
    → ((a : A) (t : Trace) → r ≡ ok a → P t → Q a t)
    → Ensures P (lift r) Q
unfolding lift
Ensures-lift (ok a) Q h = record { at = λ t p. h a t refl p }
Ensures-lift (err e) Q h = record { at = λ t p. tt }

-- The test is a fact in both branches.
pub Ensures-test :
    {P : Trace → Type 0} {A : Type 0} (b : Bool) (m n : M A) (Q : A → Trace → Type 0)
    → (b ≡ true → Ensures P m Q)
    → (b ≡ false → Ensures P n Q)
    → Ensures P (if b then m else n) Q
Ensures-test true m n Q hm hn = hm refl
Ensures-test false m n Q hm hn = hn refl

-- Nothing is needed where anything may hold before.
pub Ensures-any :
    {P : Trace → Type 0} {A : Type 0} (m : M A) (Q : A → Trace → Type 0)
    → Ensures Anything m Q
    → Ensures P m Q
Ensures-any m Q h = record { at = λ t p. h.at t tt }

pub Ensures-weaken :
    {P : Trace → Type 0} {A : Type 0} {Q : A → Trace → Type 0} (m : M A) {R : A → Trace → Type 0}
    → Ensures P m Q
    → ((a : A) (t : Trace) → Q a t → R a t)
    → Ensures P m R
Ensures-weaken {A} {Q} m {R} ensures weaker = record {
  at = λ t p. let (r, t') = m t in weakened r t' (ensures.at t p);
}
  where
    weakened : (r : Result A) (t : Trace) → Post Q (r, t) → Post R (r, t)
    weakened (ok a) t q = weaker a t q
    weakened (err e) t q = tt

-- What the first step ensures is known of its result in the second.
pub Keeps-known :
    {P : Trace → Type 0} {A B : Type 0} (m : M A) (f : A → M B) (F : A → Type 0)
    → Ensures Anything m (λ a t. F a)
    → Keeps P m
    → ((a : A) → F a → Keeps P (f a))
    → Keeps P (m >>= f)
unfolding ◌>>=◌
Keeps-known {P} {A} {B} m f F knows hm hf = record {
  at = λ t p. let (r, t') = m t in continued r t' (knows.at t tt) (hm.at t p);
}
  where
    continued : (r : Result A) (t : Trace) → Post (λ a t. F a) (r, t) → P t → P ((lift r >>= f) t).1
    continued (ok a) t k p = (hf a k).at t p
    continued (err e) t k p = p
