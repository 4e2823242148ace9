-- ===== src/NetworkConfig/Following.antt =====
-- Actions of the network plugin that carry out a plan of calls.
use cloudbase_init.Base.{
  ◌≡◌, refl, sym, ap, ◌∙◌, subst, List, [], ◌∷◌, ◌++◌, append-nil, append_assoc,
}
use cloudbase_init.Base.Result.{Result, ok, raise, Exn}
use cloudbase_init.Action.{Action, pure, ◌>>=◌}
use cloudbase_init.Action.Rules.{Ensures, Holds, Ensures-bind, Ensures-raises}
use cloudbase_init.NetworkConfig.{Call, adapter_renamed, ask, lift}

-- The calls without the renaming of adapters, which the details leave to the names they have.
unfoldable pub visible : List Call → List Call
visible [] = []
visible (adapter_renamed old_name new_name ∷ calls) = visible calls
visible (c ∷ calls) = c ∷ visible calls

-- The first list is a beginning of the second.
abbrev pub Begins : List Call → List Call → Type 0
Begins done whole = (rest : List Call) × (done ++ rest ≡ whole)

pub visible-append : (as' bs : List Call) → visible (as' ++ bs) ≡ visible as' ++ visible bs
unfolding visible
visible-append [] bs = refl
visible-append (adapter_renamed _ _ ∷ as') bs = visible-append as' bs
visible-append (c ∷ as') bs = ap (λ l. c ∷ l) (visible-append as' bs)

-- An action that returns has made the calls of the plan, behind those made before; one that raises
-- has made a beginning of them.
pub record Follows {A : Type 0} (m : Action (List Call) A) (calls : List Call) : Type 0 where
  pub from :
      (done : List Call)
      → Ensures
          (λ h. visible h ≡ done)
          m
          (λ _ h. visible h ≡ done ++ calls)
          (λ h. Begins (visible h) (done ++ calls))

module _ {A B : Type 0} where
  pub Follows-bind :
      (m : Action (List Call) A) (f : A → Action (List Call) B) {p q : List Call}
      → Follows m p
      → ((x : A) → Follows (f x) q)
      → Follows (m >>= f) (p ++ q)
  Follows-bind m f {p} {q} hm hf = record {
    from = λ done.
        subst
          (λ (whole : List Call).
            Ensures (λ h. visible h ≡ done) (m >>= f) (λ _ h. visible h ≡ whole)
              (λ h. Begins (visible h) whole))
          (append_assoc done p q)
          (Ensures-bind m f
            (Ensures-raises m (hm.from done)
              λ h b. (b.0 ++ q, sym (append_assoc (visible h) b.0 q) ∙ ap (λ l. l ++ q) b.1))
            (λ x. (hf x).from (done ++ p)));
  }

module _ {A : Type 0} where
  pub Follows-silent : (f : List Call → Result A) → Follows (ask f) []
  unfolding ask
  Follows-silent f = record {
    from = λ done. record { at = λ h e. holds (f h) h done (e ∙ sym (append-nil done)) };
  }
    where
      holds :
          (r : Result A) (h done : List Call)
          → visible h ≡ done ++ []
          → Holds (λ _ h. visible h ≡ done ++ []) (λ h. Begins (visible h) (done ++ [])) r h
      holds (ok x) h done e = e
      holds (raise x) h done e = ([], append-nil (visible h) ∙ e)

  pub Follows-lift : (r : Result A) → Follows (lift r) []
  unfolding lift ask
  Follows-lift r = Follows-silent (λ _. r)

  pub Follows-pure : (x : A) → Follows (pure x) []
  unfolding pure ask
  Follows-pure x = Follows-silent (λ _. ok x)

  -- A call, whatever it answers.
  pub Follows-answer :
      (f : List Call → Result A) (c : Call)
      → Follows (λ calls. (f calls, calls ++ c ∷ [])) (visible (c ∷ []))
  Follows-answer f c = record {
    from = λ done. record {
      at = λ h e. holds (f h) _ _ (visible-append h (c ∷ []) ∙ ap (λ l. l ++ visible (c ∷ [])) e);
    };
  }
    where
      holds :
          (r : Result A) (h whole : List Call)
          → visible h ≡ whole
          → Holds (λ _ h. visible h ≡ whole) (λ h. Begins (visible h) whole) r h
      holds (ok x) h whole e = e
      holds (raise x) h whole e = ([], append-nil (visible h) ∙ e)

module _ {A B : Type 0} where
  -- What raises before any call has made a beginning of whatever was planned.
  pub Follows-raise :
      (e : Exn) (f : A → Action (List Call) B) (calls : List Call)
      → Follows (lift (raise e) >>= f) calls
  unfolding ◌>>=◌ lift
  Follows-raise e f calls = record {
    from = λ done. record { at = λ h eq. (calls, ap (λ l. l ++ calls) eq) };
  }

  pub Follows-ok :
      (x : A) (f : A → Action (List Call) B) (calls : List Call)
      → Follows (f x) calls
      → Follows (lift (ok x) >>= f) calls
  unfolding ◌>>=◌ lift
  Follows-ok x f calls h = h
