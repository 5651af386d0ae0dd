-- ===== src/Session/Transcript.antt =====
-- What `_run_decode` sends for a backend stream, on a connection that keeps up.
use pipecat_local_stt_server.Prelude.{
  ℕ, suc, String, Bool, true, false, Option, none, some, List, [], ◌∷◌, ◌++◌, ◌≡◌, refl, ◌∙◌, ap,
  sym, arith, append-nil, append_assoc,
}
use pipecat_local_stt_server.Protocol.{backend_error}
use pipecat_local_stt_server.Session.State.{
  text, ServerEvent, transcript_delta, transcript_completed, transcript_failed, Phase, opening,
  streaming, DecodeTask, Session, Io,
}
use pipecat_local_stt_server.Session.Send.{send, over_high_water, error_object}
use pipecat_local_stt_server.Session.Decode.{
  DecodeAct, assigned, opened, delta, completed, finished, failed, decode_task, decode_step_of,
  decode_step, decode_run,
}

-- The peer stays and reads fast enough.
pub record KeepsUp (io : Io) : Type 0 where
  pub drained : (n : ℕ) → over_high_water io n ≡ false
  pub present : (n : ℕ) → io.peer_gone n ≡ false

module _ (io : Io) (clear : KeepsUp io) where
  send-open :
      (force : Bool) (e : ServerEvent) (s : Session)
      → s.socket_closed ≡ false
      → send io force e s ≡ record s { sent = s.sent ++ e ∷ []; sends = suc s.sends }
  unfolding send
  send-open force e s unshut = ground (arith, clear.drained s.sends, clear.present s.sends)

-- The stream's own events: deltas, and completed texts of which the last one counts.
abbrev pub AllStream : List DecodeAct → Type 0
AllStream [] = Unit
AllStream (delta d ∷ es) = AllStream es
AllStream (completed c ∷ es) = AllStream es
AllStream (_ ∷ es) = ⊥

unfoldable pub deltas : ℕ → List DecodeAct → List ServerEvent
deltas item [] = []
deltas item (delta d ∷ es) = transcript_delta item d ∷ deltas item es
deltas item (_ ∷ es) = deltas item es

unfoldable pub final_text : String → List DecodeAct → String
final_text f [] = f
final_text f (completed c ∷ es) = final_text c es
final_text f (_ ∷ es) = final_text f es

-- a session whose decode task reads its stream
abbrev reading : Session → DecodeTask → String → Session
reading s t f = record s {
  in_flight = some (record t { phase = streaming f });
  current_stream = true;
}

module _ (io : Io) (clear : KeepsUp io) (t : DecodeTask) where
  ends_completed :
      (f : String) (s : Session)
      → s.socket_closed ≡ false
      → (decode_step io finished (reading s t f)).sent
        ≡ s.sent ++ transcript_completed t.item f ∷ []
  unfolding decode_step
  ends_completed f s unshut =
      rw (send-open io clear false (transcript_completed t.item f) (reading s t f) unshut)

  ends_failed :
      (f : String) (s : Session)
      → s.socket_closed ≡ false
      → (decode_step io failed (reading s t f)).sent
        ≡ s.sent
          ++ transcript_failed t.item
              (error_object backend_error (text "backend decode failed") none)
            ∷ []
  unfolding decode_step
  ends_failed f s unshut = rw (
      send-open io clear true
        (transcript_failed t.item (error_object backend_error (text "backend decode failed") none))
        (reading s t f) unshut)

  -- After the stream's events the task still reads, and the deltas were sent in their order.
  stream_read :
      (es rest : List DecodeAct) (f : String) (s : Session)
      → AllStream es
      → s.socket_closed ≡ false
      → (n : ℕ) × (decode_run io (es ++ rest) (reading s t f)
          ≡ decode_run io rest (
              reading
                (record s { sent = s.sent ++ deltas t.item es; sends = n })
                t
                (final_text f es)))
  unfolding decode_run deltas final_text
  stream_read [] rest f s ok unshut = (
    s.sends,
    ap (λ (l : List ServerEvent). decode_run io rest (reading (record s { sent = l }) t f))
        (sym (append-nil s.sent)),
  )
  stream_read (delta d ∷ es) rest f s ok unshut =
      let next : Session = record s {
        sent = s.sent ++ transcript_delta t.item d ∷ [];
        sends = suc s.sends;
      } in
      let (n, ih) = stream_read es rest f next ok unshut in
      (
        n,
        ap (decode_run io (es ++ rest))
              (send-open io clear false (transcript_delta t.item d) (reading s t f) unshut)
            ∙ ih
            ∙ ap
                (λ (l : List ServerEvent).
                  decode_run io rest
                    (reading (record s { sent = l; sends = n }) t (final_text f es)))
                (append_assoc s.sent (transcript_delta t.item d ∷ []) (deltas t.item es)),
      )
  stream_read (completed c ∷ es) rest f s ok unshut = stream_read es rest c s ok unshut
  stream_read (assigned ∷ es) rest f s ok unshut = absurd ok
  stream_read (opened ∷ es) rest f s ok unshut = absurd ok
  stream_read (finished ∷ es) rest f s ok unshut = absurd ok
  stream_read (failed ∷ es) rest f s ok unshut = absurd ok
  stream_read (DecodeAct.unwound ∷ es) rest f s ok unshut = absurd ok

  -- the stream is opened
  opens :
      (s : Session) (acts : List DecodeAct)
      → s.in_flight ≡ some t
      → t.phase ≡ opening
      → decode_run io (opened ∷ acts) s ≡ decode_run io acts (reading s t "")
  unfolding decode_run decode_step
  opens s acts e p = ap (decode_run io acts) (
      ap (λ (o : Option DecodeTask). decode_step_of io o opened s) e
      ∙ ap (λ (q : Phase). decode_task io t q opened s) p)

  last_step : (act : DecodeAct) (s : Session) → decode_run io (act ∷ []) s ≡ decode_step io act s
  unfolding decode_run
  last_step act s = refl

-- On an open connection that keeps up, a decode whose backend stream opens, yields deltas and
-- completed texts and ends, sends each delta in order and then one `completed` event with the last
-- completed text (or the empty one). If the stream raises instead of ending, the same deltas are
-- followed by one `failed` event with a generic backend error. All carry the committed item's id.
pub transcript_order :
    (io : Io) (t : DecodeTask) (es : List DecodeAct) (s : Session)
    → KeepsUp io
    → s.in_flight ≡ some t
    → t.phase ≡ opening
    → s.socket_closed ≡ false
    → AllStream es
    → ((decode_run io (opened ∷ (es ++ finished ∷ [])) s).sent
        ≡ (s.sent ++ deltas t.item es) ++ transcript_completed t.item (final_text "" es) ∷ [])
      × ((decode_run io (opened ∷ (es ++ failed ∷ [])) s).sent
          ≡ (s.sent ++ deltas t.item es)
            ++ transcript_failed t.item
                (error_object backend_error (text "backend decode failed") none)
              ∷ [])
transcript_order io t es s clear e p unshut ok =
    let (n, read) = stream_read io clear t es (finished ∷ []) "" s ok unshut in
    let (m, read') = stream_read io clear t es (failed ∷ []) "" s ok unshut in
    (
      ap (λ (r : Session). r.sent)
            (opens io clear t s (es ++ finished ∷ []) e p ∙ read ∙ last_step io clear t finished _)
          ∙ ends_completed io clear t (final_text "" es)
              (record s { sent = s.sent ++ deltas t.item es; sends = n }) unshut,
      ap (λ (r : Session). r.sent)
            (opens io clear t s (es ++ failed ∷ []) e p ∙ read' ∙ last_step io clear t failed _)
          ∙ ends_failed io clear t (final_text "" es)
              (record s { sent = s.sent ++ deltas t.item es; sends = m }) unshut,
    )
