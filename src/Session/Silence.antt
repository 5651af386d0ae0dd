-- ===== src/Session/Silence.antt =====
-- What a client may see sent: nothing once the socket is closed, and `session.closed` at most once,
-- as the last event.
use pipecat_local_stt_server.Prelude.{
  String, Bool, true, List, [], ◌∷◌, ◌++◌, ◌≡◌, refl, ◌∙◌, ap, ◌⊎◌, inl, inr,
}
use pipecat_local_stt_server.Session.State.{ServerEvent, session_closed, Reason, Session, Io}
use pipecat_local_stt_server.Session.Send.{send}
use pipecat_local_stt_server.Session.Closing.{say_closed}
use pipecat_local_stt_server.Session.Loop.{Act, run, connect, new_session}
use pipecat_local_stt_server.Session.Induction.{run_kept}
use pipecat_local_stt_server.Session.Sending.{send-SameWork, sent-send_closed, sent-send_cases}
use pipecat_local_stt_server.Session.Traces.{IsReport, IsStable}
use pipecat_local_stt_server.Session.TraceRule.{IsStable-IsKept}

-- the socket is closed, and `l` was sent
record IsSilent (l : List ServerEvent) (s : Session) : Type 0 where
  shut : s.socket_closed ≡ true
  fixed : s.sent ≡ l

module _ (io : Io) (l : List ServerEvent) where
  send-IsSilent :
      (force : Bool) (e : ServerEvent) (s : Session) → IsSilent l s → IsSilent l (send io force e s)
  send-IsSilent force e s h =
      let quiet = sent-send_closed io s force e h.shut in
      record { shut = quiet.1; fixed = quiet.0 ∙ h.fixed }

  IsSilent-stable : IsStable io (IsSilent l)
  unfolding say_closed
  IsSilent-stable = record {
    sending = λ force e s _. send-IsSilent force e s;
    saying = λ r s h.
        let told =
          send-IsSilent true (session_closed s.session_id r) (record s { closed = true })
            (record { shut = h.shut; fixed = h.fixed }) in
        record { shut = refl; fixed = told.fixed };
    working =
        λ s t same h. record { shut = same.socket_closed ∙ h.shut; fixed = same.sent ∙ h.fixed };
    closing = λ s h. record { shut = h.shut; fixed = h.fixed };
  }

-- Once the socket is closed (by `session.close`, `session.cancel` or a send queue overflow), no run
-- of frames, decode steps, cancels and disconnects sends anything more.
pub silent_after_close :
    (io : Io) (acts : List Act) (s : Session)
    → s.socket_closed ≡ true
    → (run io acts s).sent ≡ s.sent
silent_after_close io acts s shut =
    (run_kept (IsSilent s.sent) (IsStable-IsKept _ (IsSilent-stable io s.sent)) acts s
      (record { shut = shut; fixed = refl })).fixed

abbrev pub AllReports : List ServerEvent → Type 0
AllReports [] = Unit
AllReports (e ∷ es) = IsReport e × AllReports es

AllReports-append :
    (l : List ServerEvent) (e : ServerEvent) → AllReports l → IsReport e → AllReports (l ++ e ∷ [])
AllReports-append [] e h r = (r, tt)
AllReports-append (x ∷ l) e h r = (h.0, AllReports-append l e h.1 r)

-- No `session.closed` yet; or one, the last event, and the socket is closed.
abbrev pub EndsOnce : String → Session → Type 0
EndsOnce id s =
    AllReports s.sent
    ⊎ ((before : List ServerEvent) × (r : Reason) × AllReports before
        × (s.sent ≡ before ++ session_closed id r ∷ [])
        × (s.socket_closed ≡ true))

record IsOrderly (id : String) (s : Session) : Type 0 where
  named : s.session_id ≡ id
  ends : EndsOnce id s

EndsOnce-quiet :
    (id : String) (s t : Session)
    → t.sent ≡ s.sent
    → (s.socket_closed ≡ true → t.socket_closed ≡ true)
    → EndsOnce id s
    → EndsOnce id t
EndsOnce-quiet id s t e keep (inl reports) = inl (rw e reports)
EndsOnce-quiet id s t e keep (inr (before, r, reports, last, shut)) =
    inr (before, r, reports, e ∙ last, keep shut)

module _ (io : Io) (id : String) where
  send-EndsOnce :
      (force : Bool) (e : ServerEvent) (s : Session)
      → IsReport e
      → EndsOnce id s
      → EndsOnce id (send io force e s)
  send-EndsOnce force e s report (inl reports) = elim (sent-send_cases io s force e) [
    | inl same ↦ inl (rw same reports)
    | inr more ↦ inl (rw more (AllReports-append s.sent e reports report))
  ]
  send-EndsOnce force e s report (inr (before, r, reports, last, shut)) =
      let quiet = sent-send_closed io s force e shut in
      inr (before, r, reports, quiet.0 ∙ last, quiet.1)

  say-EndsOnce :
      (r : Reason) (s : Session)
      → s.session_id ≡ id
      → EndsOnce id s
      → EndsOnce id (say_closed io r s)
  unfolding say_closed
  say-EndsOnce r s named (inl reports) =
      elim (sent-send_cases io (record s { closed = true }) true (session_closed s.session_id r)) [
        | inl same ↦ inl (rw same reports)
        | inr more ↦
            inr (s.sent, r, reports, more ∙ ap (λ i. s.sent ++ session_closed i r ∷ []) named, refl)
      ]
  say-EndsOnce r s named (inr (before, r', reports, last, shut)) =
      let quiet =
        sent-send_closed io (record s { closed = true }) true (session_closed s.session_id r)
          shut in
      inr (before, r', reports, quiet.0 ∙ last, refl)

  IsOrderly-stable : IsStable io (IsOrderly id)
  unfolding say_closed
  IsOrderly-stable = record {
    sending = λ force e s report h. record {
      named = (send-SameWork io s force e).session_id ∙ h.named;
      ends = send-EndsOnce force e s report h.ends;
    };
    saying = λ r s h. record {
      named =
          (send-SameWork io (record s { closed = true }) true
            (session_closed s.session_id r)).session_id
          ∙ h.named;
      ends = say-EndsOnce r s h.named h.ends;
    };
    working = λ s t same h. record {
      named = same.session_id ∙ h.named;
      ends = EndsOnce-quiet id s t same.sent (λ shut. same.socket_closed ∙ shut) h.ends;
    };
    closing = λ s h. record {
      named = h.named;
      ends = EndsOnce-quiet id s (record s { closed = true }) refl (λ shut. shut) h.ends;
    };
  }

  connect-IsOrderly : IsOrderly id (connect io id)
  unfolding connect
  connect-IsOrderly = IsOrderly-stable.sending _ _ _ tt (
      IsOrderly-stable.sending _ _ _ tt
        (IsOrderly-stable.sending _ _ (new_session id) tt (record { named = refl; ends = inl tt })))

-- Whatever happens on a connection, `session.closed` is sent at most once, with the connection's own
-- session id, and it is the last event of all.
pub run-EndsOnce :
    (io : Io) (id : String) (acts : List Act) → EndsOnce id (run io acts (connect io id))
run-EndsOnce io id acts =
    (run_kept (IsOrderly id) (IsStable-IsKept _ (IsOrderly-stable io id)) acts (connect io id)
      (connect-IsOrderly io id)).ends
