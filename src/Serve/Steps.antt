-- ===== src/Serve/Steps.antt =====
-- What the stages of `serve` do before its shutdown.
use pipecat_local_stt_server.Prelude.{
  true, false, ◌&&◌, none, List, [], ◌∷◌, ◌++◌, ◌≡◌, refl, sym, ◌∙◌, ap, append_assoc,
  if◌then◌else◌, if_rule,
}
use pipecat_local_stt_server.Serve.{
  Options, Stage, startup, readiness, Abandon, StepEnd, completes, fails, stop_first,
  serve_cancelled, Script, Action, started, tracked, cancelled, abandoned, published, aborted,
  exited, StepResult, goes_on, stops, process_exit, raises, abandon_step, begin_step,
  run_until_stop, and_then, publish_and_wait, serve_body,
}

-- what a step of `serve` does, before the shutdown
abbrev pub IsStep : Action → Type 0
IsStep (started g) = Unit
IsStep (tracked g) = Unit
IsStep (cancelled g) = Unit
IsStep (abandoned g) = Unit
IsStep published = Unit
IsStep _ = ⊥

abbrev pub AllSteps : List Action → Type 0
AllSteps [] = Unit
AllSteps (a ∷ acts) = IsStep a × AllSteps acts

pub AllSteps-append :
    (acts more : List Action) → AllSteps acts → AllSteps more → AllSteps (acts ++ more)
AllSteps-append [] more p q = q
AllSteps-append (a ∷ acts) more (p, ps) q = (p, AllSteps-append acts more ps q)

pub abandon-AllSteps : (g : Stage) (a : Abandon) → AllSteps (abandon_step g a)
abandon-AllSteps g a =
    if_rule (λ l. Unit × AllSteps l) a.is_done _ _ (λ _. (tt, tt))
      λ _. if_rule (λ l. Unit × AllSteps l) a.can_adopt _ _ (λ _. (tt, (tt, tt))) λ _. (tt, tt)

begin-AllSteps : (g : Stage) → AllSteps (begin_step g)
begin-AllSteps startup = (tt, tt)
begin-AllSteps readiness = (tt, (tt, tt))

-- a stage does steps only, or it ends the process for a stop that came first
abbrev pub Steps : Options → List Action × StepResult → Type 0
Steps opts (acts, process_exit) =
    (opts.hard_exit_on_stop ≡ true)
    × ((before : List Action) × AllSteps before × (acts ≡ before ++ aborted ∷ exited 0 ∷ []))
Steps opts (acts, _) = AllSteps acts

step-Steps : (opts : Options) (g : Stage) (e : StepEnd) → Steps opts (run_until_stop opts g e)
unfolding run_until_stop
step-Steps opts g (completes true) = AllSteps-append (begin_step g) [] (begin-AllSteps g) tt
step-Steps opts g (completes false) = AllSteps-append (begin_step g) [] (begin-AllSteps g) tt
step-Steps opts g fails = AllSteps-append (begin_step g) [] (begin-AllSteps g) tt
step-Steps opts g (serve_cancelled a) = AllSteps-append (begin_step g) [] (begin-AllSteps g) tt
step-Steps opts g (stop_first a) =
    if_rule (λ (r : List Action × StepResult). Steps opts (begin_step g ++ r.0, r.1))
      opts.hard_exit_on_stop _ _ (λ hard. (hard, (begin_step g, begin-AllSteps g, refl)))
      λ _.
        if_rule (λ (r : StepResult). Steps opts (begin_step g ++ abandon_step g a, r)) a.interrupted
          _ _ (λ _. AllSteps-append (begin_step g) _ (begin-AllSteps g) (abandon-AllSteps g a))
          λ _. AllSteps-append (begin_step g) _ (begin-AllSteps g) (abandon-AllSteps g a)

and_then-Steps :
    (opts : Options) (r next : List Action × StepResult)
    → Steps opts r
    → Steps opts next
    → Steps opts (and_then r next)
and_then-Steps opts (acts, stops) next p q = p
and_then-Steps opts (acts, process_exit) next p q = p
and_then-Steps opts (acts, raises o) next p q = p
and_then-Steps opts (acts, goes_on) (more, goes_on) p q = AllSteps-append acts more p q
and_then-Steps opts (acts, goes_on) (more, stops) p q = AllSteps-append acts more p q
and_then-Steps opts (acts, goes_on) (more, raises o) p q = AllSteps-append acts more p q
and_then-Steps opts (acts, goes_on) (more, process_exit) p (hard, (before, steps, e)) = (
  hard,
  (
    acts ++ before,
    AllSteps-append acts before p steps,
    ap (λ l. acts ++ l) e ∙ sym (append_assoc acts before _),
  ),
)

publish-Steps : (opts : Options) (s : Script) → Steps opts (publish_and_wait opts s)
publish-Steps opts s =
    if_rule (Steps opts) (opts.has_publish && s.publish_fails) _ _ (λ _. tt)
      λ _.
        if_rule
          (λ (l : List Action). Steps opts (l, if s.wait_cancelled then raises none else stops))
          opts.has_publish _ _
          (λ _.
            if_rule (λ r. Steps opts (published ∷ [], r)) s.wait_cancelled _ _ (λ _. (tt, tt))
              λ _. (tt, tt))
          λ _. if_rule (λ r. Steps opts ([], r)) s.wait_cancelled _ _ (λ _. tt) λ _. tt

pub body-Steps : (opts : Options) (s : Script) → Steps opts (serve_body opts s)
unfolding serve_body
body-Steps opts s =
    let prepared : List Action × StepResult =
      if opts.has_ready then run_until_stop opts readiness s.preparing else ([], goes_on) in
    and_then-Steps opts (run_until_stop opts startup s.starting)
      (and_then prepared (publish_and_wait opts s)) (step-Steps opts startup s.starting)
      (and_then-Steps opts prepared (publish_and_wait opts s)
        (if_rule (Steps opts) opts.has_ready (run_until_stop opts readiness s.preparing)
          ([], goes_on) (λ _. step-Steps opts readiness s.preparing) λ _. tt)
        (publish-Steps opts s))
