-- ===== src/UserData/Calls.antt =====
-- The calls of a multipart document: what is asserted of them, and the steps that keep it.
use cloudbase_init.Base.{
  ℕ, String, ◌≡◌, refl, sym, subst, Bool, true, false, some, List, [], ◌∷◌, ◌++◌, All, All-append,
  Bool-cases, inl, inr, contains, string_eq, ◌==◌, if◌then◌else◌,
}
use cloudbase_init.Base.Result.{Result, ok, raise}
use cloudbase_init.Action.Rules.{Ensures, Holds, Ensures-bind, Ensures-pure}
use cloudbase_init.UserData.{
  PartCall, ended, handled, processed, Progress, Plugins, handler_of, set_handler, called,
  call_each,
}

module _ (p : Plugins) where
  -- A handler gets the parts that no plugin manages, and a plugin those of its own content type.
  abbrev pub Proper : PartCall → Type 0
  Proper (handled h part) = contains p.content_types part.content_type ≡ false
  Proper (processed part) = contains p.content_types part.content_type ≡ true
  Proper _ = Unit

  -- The call ends no handler.
  abbrev pub Quiet : PartCall → Type 0
  Quiet (ended h) = ⊥
  Quiet _ = Unit

  abbrev pub Unmanaged : List (String × ℕ) → Type 0
  Unmanaged = All (λ (e : String × ℕ). contains p.content_types e.0 ≡ false)

  pub record Separate (s : Progress) : Type 0 where
    pub unmanaged : All (λ (e : String × ℕ). contains p.content_types e.0 ≡ false) s.user_handlers
    pub proper : All Proper s.calls

  pub record Running (s : Progress) : Type 0 where
    pub separate : Separate s
    pub quiet : All Quiet s.calls

  pub Unmanaged-handler_of :
      (hs : List (String × ℕ)) (t : String) (h : ℕ)
      → Unmanaged hs
      → handler_of hs t ≡ some h
      → contains p.content_types t ≡ false
  Unmanaged-handler_of [] t h u e = absurd (cc)
  Unmanaged-handler_of ((s, g) ∷ hs) t h (u, us) e = elim (Bool-cases (s == t)) [
    | inl y ↦ subst (λ x. contains p.content_types x ≡ false) ((string_eq.same_iff s t).0 y) u
    | inr n ↦ Unmanaged-handler_of hs t h us (rw n at e)
  ]

  pub Unmanaged-set_handler :
      (hs : List (String × ℕ)) (t : String) (h : ℕ)
      → contains p.content_types t ≡ false
      → Unmanaged hs
      → Unmanaged (set_handler hs t h)
  unfolding set_handler
  Unmanaged-set_handler [] t h n u = (n, tt)
  Unmanaged-set_handler ((s, g) ∷ hs) t h n (u, us) = elim (Bool-cases (s == t)) [
    | inl y ↦
        subst (λ b. Unmanaged (if b then (s, h) ∷ hs else (s, g) ∷ set_handler hs t h)) (sym y)
          (u, us)
    | inr o ↦
        subst (λ b. Unmanaged (if b then (s, h) ∷ hs else (s, g) ∷ set_handler hs t h)) (sym o)
          (u, Unmanaged-set_handler hs t h n us)
  ]

  pub Running-more :
      (s : Progress) (c : PartCall)
      → Proper c
      → Quiet c
      → Running s
      → Running (record s { calls = s.calls ++ c ∷ [] })
  Running-more s c proper quiet r = record {
    separate = record {
      unmanaged = r.separate.unmanaged;
      proper = All-append _ s.calls (c ∷ []) r.separate.proper (proper, tt);
    };
    quiet = All-append _ s.calls (c ∷ []) r.quiet (quiet, tt);
  }

  pub Separate-ended :
      (s : Progress) (h : ℕ) → Separate s → Separate (record s { calls = s.calls ++ ended h ∷ [] })
  Separate-ended s h r = record {
    unmanaged = r.unmanaged;
    proper = All-append _ s.calls (ended h ∷ []) r.proper (tt, tt);
  }

  pub Holds-any :
      {A : Type 0} (R : Progress → Type 0) (r : Result A) (s : Progress)
      → R s
      → Holds (λ _. R) R r s
  Holds-any R (ok a) s h = h
  Holds-any R (raise e) s h = h

  pub Ensures-called :
      {P R : Progress → Type 0} (c : PartCall)
      → ((s : Progress) → P s → R (record s { calls = s.calls ++ c ∷ [] }))
      → Ensures P (called p c) (λ _. R) R
  unfolding called
  Ensures-called {R} c w = record { at = λ s h. Holds-any R _ _ (w s h) }

  pub Ensures-call_each :
      {R : Progress → Type 0} (event : ℕ → PartCall) (hs : List ℕ)
      → ((h : ℕ) (s : Progress) → R s → R (record s { calls = s.calls ++ event h ∷ [] }))
      → Ensures R (call_each p event hs) (λ _. R) R
  unfolding call_each
  Ensures-call_each event [] w = Ensures-pure tt (λ _ h. h)
  Ensures-call_each event (h ∷ hs) w =
      Ensures-bind (called p (event h)) _ (Ensures-called (event h) (w h))
        λ _. Ensures-call_each event hs w

  pub Holds-if :
      {A : Type 0} (R : Progress → Type 0) (b : Bool) (x y : Result A × Progress)
      → (b ≡ true → Holds (λ _. R) R x.0 x.1)
      → (b ≡ false → Holds (λ _. R) R y.0 y.1)
      → Holds (λ _. R) R (if b then x else y).0 (if b then x else y).1
  Holds-if R true x y hx hy = hx refl
  Holds-if R false x y hx hy = hy refl

  pub Running-set_handler :
      (s : Progress) (t : String) (h : ℕ)
      → contains p.content_types t ≡ false
      → Running s
      → Running (record s { user_handlers = set_handler s.user_handlers t h })
  Running-set_handler s t h n r = record {
    separate = record {
      unmanaged = Unmanaged-set_handler s.user_handlers t h n r.separate.unmanaged;
      proper = r.separate.proper;
    };
    quiet = r.quiet;
  }
