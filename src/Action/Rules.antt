-- ===== src/Action/Rules.antt =====
-- Assertions about actions: `P` before, `Q a` after a return of `a`, `E` after a raise.
use cloudbase_init.Base.{◌≡◌, refl, Bool, true, false, if◌then◌else◌}
use cloudbase_init.Base.Result.{Result, ok, raise, Exn}
use cloudbase_init.Action.{
  Action, pure, throw, ◌>>=◌, continue, when, swallow, attempt, finished, finally,
}

module _ {S : Type 0} where
  abbrev pub Holds : {A : Type 0} → (A → S → Type 0) → (S → Type 0) → Result A → S → Type 0
  Holds Q E (ok a) s = Q a s
  Holds Q E (raise e) s = E s

  pub record Ensures {A : Type 0} (P : S → Type 0) (m : Action S A) (Q : A → S → Type 0)
      (E : S → Type 0) : Type 0 where
    pub at : (s : S) → P s → Holds Q E (m s).0 (m s).1

  Holds-continue :
      {A B : Type 0} {Q : A → S → Type 0} {R : B → S → Type 0} {E : S → Type 0} (r : Result A)
      (f : A → Action S B) (s : S)
      → Holds Q E r s
      → ((a : A) → Ensures (Q a) (f a) R E)
      → Holds R E (continue r f s).0 (continue r f s).1
  Holds-continue (ok a) f s h k = (k a).at s h
  Holds-continue (raise e) f s h k = h

  Holds-finished :
      {A : Type 0} {R E : S → Type 0} (r : Result A) (q : Result Unit) (s : S)
      → ((s : S) → R s → E s)
      → Holds (λ _. R) E q s
      → Holds (λ _. R) E (finished r q) s
  Holds-finished (ok a) (ok u) s w h = h
  Holds-finished (ok a) (raise e) s w h = h
  Holds-finished (raise e) (ok u) s w h = w s h
  Holds-finished (raise e) (raise e') s w h = h

  Holds-swallow :
      {R E F : S → Type 0} (r : Result Unit) (s : S)
      → ((s : S) → F s → R s)
      → ((s : S) → F s → E s)
      → Holds (λ _. R) F r s
      → Holds (λ _. R) E (swallow r) s
  unfolding swallow
  Holds-swallow (ok u) s w v h = h
  Holds-swallow (raise (Exn.system_exit n)) s w v h = v s h
  Holds-swallow (raise _) s w v h = w s h

  Holds-same : {A : Type 0} (R : S → Type 0) (r : Result A) (s : S) → Holds (λ _. R) R r s → R s
  Holds-same R (ok a) s h = h
  Holds-same R (raise e) s h = h

  -- What holds of the state alone holds after a return and after a raise.
  pub Holds-state :
      {A : Type 0} (R E : S → Type 0) (r : Result A) (s : S)
      → R s
      → (R s → E s)
      → Holds (λ _. R) E r s
  Holds-state R E (ok a) s h w = h
  Holds-state R E (raise e) s h w = w h

  module _ {A B : Type 0} {P : S → Type 0} {Q : A → S → Type 0} {R : B → S → Type 0}
      {E : S → Type 0} where
    pub Ensures-bind :
        (m : Action S A) (f : A → Action S B)
        → Ensures P m Q E
        → ((a : A) → Ensures (Q a) (f a) R E)
        → Ensures P (m >>= f) R E
    unfolding ◌>>=◌
    Ensures-bind m f hm hf = record { at = λ s p. Holds-continue (m s).0 f (m s).1 (hm.at s p) hf }

  module _ {A : Type 0} {P : S → Type 0} {Q : A → S → Type 0} {E : S → Type 0} where
    pub Ensures-pure : (a : A) → ((s : S) → P s → Q a s) → Ensures P (pure a) Q E
    unfolding pure
    Ensures-pure a h = record { at = h }

    pub Ensures-weaken :
        {P' : S → Type 0} (m : Action S A)
        → Ensures P m Q E
        → ((s : S) → P' s → P s)
        → Ensures P' m Q E
    Ensures-weaken m h w = record { at = λ s p. h.at s (w s p) }

    pub Ensures-throw : (e : Exn) → ((s : S) → P s → E s) → Ensures P (throw {A = A} e) Q E
    unfolding throw
    Ensures-throw e h = record { at = h }

    pub Ensures-if :
        (b : Bool) (m k : Action S A)
        → (b ≡ true → Ensures P m Q E)
        → (b ≡ false → Ensures P k Q E)
        → Ensures P (if b then m else k) Q E
    Ensures-if true m k hm hk = hm refl
    Ensures-if false m k hm hk = hk refl

  Holds-mono :
      {A : Type 0} {Q Q' : A → S → Type 0} (E : S → Type 0) (r : Result A) (s : S)
      → ((a : A) (s : S) → Q a s → Q' a s)
      → Holds Q E r s
      → Holds Q' E r s
  Holds-mono E (ok a) s w h = w a s h
  Holds-mono E (raise e) s w h = h

  module _ {A : Type 0} where
    pub Ensures-mono :
        {P : S → Type 0} {Q Q' : A → S → Type 0} {E : S → Type 0} (m : Action S A)
        → Ensures P m Q E
        → ((a : A) (s : S) → Q a s → Q' a s)
        → Ensures P m Q' E
    Ensures-mono {E = E} m h w = record { at = λ s p. Holds-mono E (m s).0 (m s).1 w (h.at s p) }

  module _ {P R E : S → Type 0} where
    pub Ensures-when :
        (b : Bool) (m : Action S Unit)
        → (b ≡ true → Ensures P m (λ _. R) E)
        → (b ≡ false → (s : S) → P s → R s)
        → Ensures P (when b m) (λ _. R) E
    unfolding when pure
    Ensures-when true m hm w = hm refl
    Ensures-when false m hm w = record { at = w refl }

    pub Ensures-attempt :
        {F : S → Type 0} (m : Action S Unit)
        → Ensures P m (λ _. R) F
        → ((s : S) → F s → R s)
        → ((s : S) → F s → E s)
        → Ensures P (attempt m) (λ _. R) E
    unfolding attempt
    Ensures-attempt m h w v = record { at = λ s p. Holds-swallow (m s).0 (m s).1 w v (h.at s p) }

    -- The last action runs from `M`, whether the body returned or raised.
    pub Ensures-finally :
        {A : Type 0} {M : S → Type 0} (m : Action S A) (last : Action S Unit)
        → Ensures P m (λ _. M) M
        → Ensures M last (λ _. R) E
        → ((s : S) → R s → E s)
        → Ensures P (finally m last) (λ _. R) E
    unfolding finally
    Ensures-finally {M} m last hm hl w = record {
      at = λ s p.
          let (r, s') = m s in
          Holds-finished r (last s').0 (last s').1 w (hl.at s' (Holds-same M r s' (hm.at s p)));
    }

module _ {S : Type 0} where
  -- A weaker assertion after a raise.
  pub Ensures-raises :
      {A : Type 0} {P E E' : S → Type 0} {Q : A → S → Type 0} (m : Action S A)
      → Ensures P m Q E
      → ((s : S) → E s → E' s)
      → Ensures P m Q E'
  Ensures-raises {A} {E} {E'} {Q} m h w = record { at = λ s x. holds (m s).0 (m s).1 (h.at s x) }
    where
      holds : (r : Result A) (s : S) → Holds Q E r s → Holds Q E' r s
      holds (ok a) s h = h
      holds (raise e) s h = w s h
