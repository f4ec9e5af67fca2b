-- ===== src/Analysis/Observer.antt =====
-- `_SafeAnalysisObserver`: a presentation observer that raises an `Exception` is disabled, and is not called
-- again. Any other exception, such as `KeyboardInterrupt`, leaves the call and disables nothing, and
-- `analyze_repository` then tells the same observer of the end.
use src_move.Common.{
  ◌≡◌, refl, sym, ap, ◌∙◌, append_assoc, append-nil, Bool, true, false, List, [], ◌∷◌, ◌++◌, String,
  ℕ, arith, if◌then◌else◌,
}

-- What the observer is told, as one of its three methods with its arguments.
pub data Event : Type 0 where
  analysis_started : String → Event
  pair_published : ℕ → Event
  analysis_finished : String → Event

-- How a call of the observer ends: `raises_other` is a `BaseException` that is no `Exception`.
pub data Response : Type 0 where
  returns raises_exception raises_other : Response

-- The wrapper's flag, the events for which the observer was called, and those at which an exception has
-- left the wrapper.
pub record SafeObserver : Type 0 where
  pub disabled : Bool
  pub called : List Event
  pub escaped : List Event

abbrev pub told : SafeObserver → Event → Response → SafeObserver
told o event returns = record o { called = o.called ++ event ∷ [] }
told o event raises_exception = record o { disabled = true; called = o.called ++ event ∷ [] }
told o event raises_other = record o {
  called = o.called ++ event ∷ [];
  escaped = o.escaped ++ event ∷ [];
}

-- `_call`; what the observer answers may depend on the events that it has been called for.
unfoldable pub call :
    (responds : List Event → Event → Response) → SafeObserver → Event → SafeObserver
call responds o event = if o.disabled then o else told o event (responds o.called event)

-- The calls of the wrapper, also those that follow an exception that has left it.
unfoldable pub call_each :
    (responds : List Event → Event → Response) → SafeObserver → List Event → SafeObserver
call_each responds o [] = o
call_each responds o (event ∷ events) = call_each responds (call responds o event) events

abbrev pub unless_exception : Response → List Event → List Event
unless_exception returns rest = rest
unless_exception raises_exception rest = []
unless_exception raises_other rest = rest

abbrev pub if_other : Response → Event → List Event
if_other returns event = []
if_other raises_exception event = []
if_other raises_other event = event ∷ []

-- The events up to the first at which the observer raises an `Exception`, that one included.
unfoldable pub until_exception :
    (responds : List Event → Event → Response) → List Event → List Event → List Event
until_exception responds before [] = []
until_exception responds before (event ∷ events) =
    event
    ∷ unless_exception (responds before event)
        (until_exception responds (before ++ event ∷ []) events)

-- The events of a list at which the observer raises another exception.
unfoldable pub others :
    (responds : List Event → Event → Response) → List Event → List Event → List Event
others responds before [] = []
others responds before (event ∷ events) =
    if_other (responds before event) event ++ others responds (before ++ event ∷ []) events

disabled_stays :
    (responds : List Event → Event → Response) (o : SafeObserver) (events : List Event)
    → o.disabled ≡ true
    → call_each responds o events ≡ o
unfolding call_each call
disabled_stays responds o [] d = refl
disabled_stays responds o (event ∷ events) d =
    let same : call responds o event ≡ o = ground (arith, d) in
    rw same (disabled_stays responds o events d)

-- What the calls have done to an observer that was not disabled.
pub record ToldInOrder (responds : List Event → Event → Response) (o : SafeObserver)
    (events : List Event) : Type 0 where
  pub called :
      (call_each responds o events).called ≡ o.called ++ until_exception responds o.called events
  pub escaped :
      (call_each responds o events).escaped
      ≡ o.escaped ++ others responds o.called (until_exception responds o.called events)

call-told :
    (responds : List Event → Event → Response) (o : SafeObserver) (event : Event)
    (events : List Event) (r : Response)
    → o.disabled ≡ false
    → responds o.called event ≡ r
    → call_each responds o (event ∷ events) ≡ call_each responds (told o event r) events
unfolding call_each call
call-told responds o event events r d e =
    let now : call responds o event ≡ told o event r = unfold call in rw e (ground (arith, d)) in
    ap (λ x. call_each responds x events) now

answered :
    (responds : List Event → Event → Response) (o : SafeObserver) (event : Event)
    (events : List Event) (r : Response)
    → o.disabled ≡ false
    → responds o.called event ≡ r
    → ((told o event r).disabled ≡ false → ToldInOrder responds (told o event r) events)
    → ToldInOrder responds o (event ∷ events)
unfolding until_exception others
answered responds o event events returns d e c =
    let t = call-told responds o event events returns d e in
    record {
      called = rw (t, e) ((c d).called ∙ append_assoc o.called (event ∷ []) _);
      escaped = rw (t, e) (c d).escaped;
    }
answered responds o event events raises_exception d e c =
    let t = call-told responds o event events raises_exception d e in
    let ends = disabled_stays responds (told o event raises_exception) events refl in
    record { called = rw (t, e, ends) refl; escaped = rw (t, e, ends) (sym (append-nil o.escaped)) }
answered responds o event events raises_other d e c =
    let t = call-told responds o event events raises_other d e in
    record {
      called = rw (t, e) ((c d).called ∙ append_assoc o.called (event ∷ []) _);
      escaped = rw (t, e) ((c d).escaped ∙ append_assoc o.escaped (event ∷ []) _);
    }

-- An observer that is not disabled is called for the events that the wrapper is given, in their order,
-- up to and including the first at which it raises an `Exception`, and for none after that. The events
-- at which an exception leaves the wrapper are those of these calls at which it raises another one.
pub call_each-ToldInOrder :
    (responds : List Event → Event → Response) (o : SafeObserver) (events : List Event)
    → o.disabled ≡ false
    → ToldInOrder responds o events
unfolding call_each until_exception others
call_each-ToldInOrder responds o [] d = record {
  called = sym (append-nil o.called);
  escaped = sym (append-nil o.escaped);
}
call_each-ToldInOrder responds o (event ∷ events) d =
    let r = responds o.called event in
    answered responds o event events r d refl
      (call_each-ToldInOrder responds (told o event r) events)
