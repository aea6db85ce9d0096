-- ===== src/Effects/Laws.antt =====
-- Taking apart a method that has returned.
use aries_guardianship_agenc.Base.{[], ◌≡◌, refl, ◌⊎◌, inl, inr}
use aries_guardianship_agenc.Effects.{
  Result, ok, err, Thrown, M, Trace, pure, lift, continue, catch, ◌>>=◌,
}

module _ {A B : Type 0} where
  -- A method that returns has gone through its first step.
  pub continue-eq-ok :
      (r : Result A) (f : A → M B) (t : Trace) {b : B} {t' : Trace}
      → continue r f t ≡ (ok b, t')
      → (a : A) × (r ≡ ok a) × (f a t ≡ (ok b, t'))
  continue-eq-ok (ok a) f t h = (a, refl, h)
  continue-eq-ok (err e) f t h = cc

pub Result-cases {ℓ} :
    {A : Type ℓ} (r : Result A) → ((a : A) × (r ≡ ok a)) ⊎ ((e : Thrown) × (r ≡ err e))
Result-cases (ok a) = inl (a, refl)
Result-cases (err e) = inr (e, refl)

module _ {A B : Type 0} where
  -- A sequence of two methods that returns has gone through both.
  pub bind-eq-ok :
      (m : M A) (f : A → M B) (t : Trace) {b : B} {t' : Trace}
      → (m >>= f) t ≡ (ok b, t')
      → (a : A) × (t₁ : Trace) × (m t ≡ (ok a, t₁)) × (f a t₁ ≡ (ok b, t'))
  unfolding ◌>>=◌
  bind-eq-ok m f t h =
      let (a, returned, rest) = continue-eq-ok (m t).0 f (m t).1 h in
      (a, (m t).1, cc returned, rest)

  pub bind-returned :
      (m : M A) (f : A → M B) {a : A} {t s : Trace} → m t ≡ (ok a, s) → (m >>= f) t ≡ f a s
  unfolding ◌>>=◌
  bind-returned m f h = rw h

  pub bind-failed :
      (m : M A) (f : A → M B) {e : Thrown} {t s : Trace}
      → m t ≡ (err e, s)
      → (m >>= f) t ≡ (err e, s)
  unfolding ◌>>=◌
  bind-failed m f h = rw h

pub catch-failed :
    {A : Type 0} (m : M A) (h : Thrown → M A) {e : Thrown} {t s : Trace}
    → m t ≡ (err e, s)
    → catch m h t ≡ h e s
unfolding catch
catch-failed m h p = rw p

-- A method without calls.
pub record CallFree {A : Type 0} (m : M A) : Type 0 where
  pub at : (t : Trace) → m t ≡ ((m []).0, t)

pub CallFree-pure : {A : Type 0} (a : A) → CallFree (pure a)
unfolding pure
CallFree-pure a = record { at = λ t. refl }

pub CallFree-lift : {A : Type 0} (r : Result A) → CallFree (lift r)
unfolding lift
CallFree-lift r = record { at = λ t. refl }

-- What follows a result that is computed.
pub CallFree-bind :
    {A B : Type 0} (r : Result A) (f : A → M B)
    → ((a : A) → CallFree (f a))
    → CallFree (lift r >>= f)
unfolding ◌>>=◌
CallFree-bind (ok a) f h = record { at = λ t. (h a).at t }
CallFree-bind (err e) f h = record { at = λ t. refl }

pub ruleset call_free_rules = (CallFree-pure, CallFree-bind)
