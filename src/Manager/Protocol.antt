-- ===== src/Manager/Protocol.antt =====
-- The order of the calls of a run, whatever the settings and the answers from outside.
pub mod Run
use mathlib.Core.List.{foldl, foldl-append}
use cloudbase_init.Base.{◌≡◌, refl, ◌∙◌, ap, Bool, true, false, Option, none, some, List, [], ◌∷◌}
use cloudbase_init.Base.{
  ◌++◌, append-nil, append_assoc, arith, Bool-cases, All, String, ◌&&◌, not, inl, inr,
  if◌then◌else◌,
}
use cloudbase_init.Base.Result.{Result, ok, raise, Exn}
use cloudbase_init.Action.{Action, ◌>>=◌, pure, throw, when, attempt, finally}
use cloudbase_init.Action.Rules.{
  Ensures, Holds, Ensures-bind, Ensures-pure, Ensures-if, Ensures-when, Ensures-attempt,
  Ensures-finally, Holds-state,
}
use cloudbase_init.Plugins.{Plugin, Answer, load_plugins}
use cloudbase_init.Metadata.{Service}
use cloudbase_init.Manager.Stage.{is_plugin_call, run_plugins-StageRun}
use cloudbase_init.Manager.{
  Host, Event, executed, booted, version_checked, cleaned_up, rebooted, terminated, service_sought,
  started, completed, failed, log, handle_plugins_stage, run_loaded, Platform,
}
use cloudbase_init.Manager.Configure.{
  OsUtils, Settings, Classes, call, noted, find_service, stage, run_service, with_service, finish,
  early_stages, discover, reset_service_password_and_respawn, configure_host,
}

-- Where a run stands: before the boot wait, in the first stage, in the second, behind the search
-- for a service, behind the report of a start (and in the main stage), behind the clean-up, behind
-- the report of a failure, behind that of a completion, and at the end.
pub data Phase : Type 0 where
  off first second sought begun cleaned reported praised over : Phase

-- The phase that a call leads to, where it is allowed.
abbrev pub follow : Phase → Event → Option Phase
follow off booted = some first
follow first (executed n a) = some first
follow first version_checked = some second
follow first service_sought = some sought
follow first rebooted = some over
follow first terminated = some over
follow second (executed n a) = some second
follow second service_sought = some sought
follow second rebooted = some over
follow second terminated = some over
follow sought started = some begun
follow sought (executed n a) = some begun
follow sought cleaned_up = some cleaned
follow sought terminated = some over
follow sought rebooted = some over
follow begun (executed n a) = some begun
follow begun cleaned_up = some cleaned
follow cleaned failed = some reported
follow cleaned completed = some praised
follow cleaned rebooted = some over
follow cleaned terminated = some over
follow reported rebooted = some over
follow reported terminated = some over
follow praised terminated = some over
follow _ _ = none

abbrev pub advance : Option Phase → Event → Option Phase
advance none e = none
advance (some p) e = follow p e

-- The phase that a list of calls leads to, or `none` once a call was out of order.
pub phase : List Event → Option Phase
phase = foldl advance (some off)

phase-append : (es : List Event) (e : Event) → phase (es ++ e ∷ []) ≡ advance (phase es) e
unfolding phase
phase-append es e = rw foldl-append

abbrev pub lands : (Phase → Bool) → Option Phase → Bool
lands Q none = false
lands Q (some q) = Q q

-- The calls so far are in order, and lead to a phase of the set.
pub record Within {W : Type 0} (P : Phase → Bool) (h : Host W) : Type 0 where
  pub in_set : lands P (phase h.events) ≡ true

abbrev pub Allows : (Phase → Bool) → Event → (Phase → Bool) → Type 0
Allows P e Q = (p : Phase) → P p ≡ true → lands Q (follow p e) ≡ true

lands-advance :
    (P Q : Phase → Bool) (e : Event) (o : Option Phase)
    → Allows P e Q
    → lands P o ≡ true
    → lands Q (advance o e) ≡ true
lands-advance P Q e none a h = h
lands-advance P Q e (some p) a h = a p h

lands_mono :
    (P Q : Phase → Bool) (o : Option Phase)
    → ((p : Phase) → P p ≡ true → Q p ≡ true)
    → lands P o ≡ true
    → lands Q o ≡ true
lands_mono P Q none a h = h
lands_mono P Q (some p) a h = a p h

pub Within-mono :
    {W : Type 0} (P Q : Phase → Bool) (h : Host W)
    → ((p : Phase) → P p ≡ true → Q p ≡ true)
    → Within P h
    → Within Q h
Within-mono P Q h a w = record { in_set = lands_mono P Q (phase h.events) a w.in_set }

-- Calls of plugins stay in a set that is closed under them.
lands-calls :
    (P : Phase → Bool) (es new : List Event)
    → ((n : String) (a : Answer) → Allows P (executed n a) P)
    → All (λ e. is_plugin_call e ≡ true) new
    → lands P (phase es) ≡ true
    → lands P (phase (es ++ new)) ≡ true
lands-calls P es [] closed calls h = rw append-nil h
lands-calls P es (executed n a ∷ new) closed (_, calls) h =
    rw (← append_assoc es (executed n a ∷ []) new) (
      lands-calls P (es ++ executed n a ∷ []) new closed calls
        (rw phase-append (lands-advance P P (executed n a) (phase es) (closed n a) h)))
lands-calls P es (_ ∷ new) closed (c, calls) h = absurd (cc)

-- Any phase: the calls so far are in order.
abbrev pub any_phase : Phase → Bool
any_phase p = true

abbrev pub IsOrdered : {W : Type 0} → Host W → Type 0
IsOrdered h = Within any_phase h

pub IsOrdered-of : {W : Type 0} (P : Phase → Bool) (h : Host W) → Within P h → IsOrdered h
IsOrdered-of P h w = Within-mono P any_phase h (λ p q. refl) w

module _ {W : Type 0} (P : Phase → Bool) where
  pub Ensures-call :
      {A : Type 0} (f : W → Result A × W) → Ensures (Within P) (call f) (λ _. Within P) IsOrdered
  unfolding call
  Ensures-call f = record {
    at = λ s w.
        Holds-state (Within P) IsOrdered (f s.world).0 _ (record { in_set = w.in_set })
          (IsOrdered-of P _);
  }

  pub Ensures-noted :
      {A : Type 0} (Q : Phase → Bool) (E : Host W → Type 0) (e : Event) (f : W → Result A × W)
      → Allows P e Q
      → ((h : Host W) → Within Q h → E h)
      → Ensures (Within P) (noted e f) (λ _. Within Q) E
  unfolding noted call
  Ensures-noted Q E e f a w = record {
    at = λ s p.
        Holds-state (Within Q) E (f s.world).0 _
          (record { in_set = rw phase-append (lands-advance P Q e (phase s.events) a p.in_set) })
          (w _);
  }

  -- A stage makes calls of plugins only.
  run_loaded-Within :
      (os : Platform) (service : Option (Service W)) (id : Option String)
      (r : Result (List (Plugin (Service W) W))) (h : Host W) (E : Host W → Type 0)
      → ((n : String) (a : Answer) → Allows P (executed n a) P)
      → ((h : Host W) → Within P h → E h)
      → Within P h
      → Holds (λ _. Within P) E (run_loaded os service id r h).0 (run_loaded os service id r h).1
  unfolding run_loaded
  run_loaded-Within os service id (raise e) h E closed w p = w h p
  run_loaded-Within os service id (ok ps) h E closed w p =
      let r = run_plugins-StageRun os service id ps h in
      record { in_set = rw r.events (lands-calls P h.events r.new closed r.calls p.in_set) }

  pub Ensures-stage :
      (c : Settings) (classes : Classes W) (service : Option (Service W)) (id : Option String)
      (name : String) (E : Host W → Type 0)
      → ((n : String) (a : Answer) → Allows P (executed n a) P)
      → ((h : Host W) → Within P h → E h)
      → Ensures (Within P) (stage c classes service id name) (λ _. Within P) E
  unfolding stage handle_plugins_stage
  Ensures-stage c classes service id name E closed w = record {
    at = λ s p. run_loaded-Within c.platform service id _ s E closed w p;
  }
