-- ===== src/Session/Soundness.antt =====
-- Every act keeps the invariant of a session, so every run does.
use pipecat_local_stt_server.Prelude.{String, Option, none, some, List, ◌≡◌, refl, arith, if_rule}
use pipecat_local_stt_server.Json.{Json, null, Fields, lookup}
use pipecat_local_stt_server.Session.State.{SessionConfig, Session, Io}
use pipecat_local_stt_server.Session.Update.{
  Check, accepts, refuses, raises, read_update, check_turn_detection, update_languages,
  announce_update, apply_update, updated, on_session_update,
}
use pipecat_local_stt_server.Session.Closing.{on_status}
use pipecat_local_stt_server.Session.Induction.{IsKept, run_kept}
use pipecat_local_stt_server.Session.Loop.{Act, run, new_session, connect}
use pipecat_local_stt_server.Session.Invariant.{
  IsSound, send-IsSound, send_error-IsSound, handle_binary_audio-IsSound,
  on_audio_append_json-IsSound, on_commit-IsSound, on_clear-IsSound,
}
use pipecat_local_stt_server.Session.Preserved.{
  decode_step-IsSound, request_cancel-IsSound, on_close-IsSound, on_cancel-IsSound,
  teardown_session-IsSound,
}

check_turn_detection-null :
    (o : Option Json) (c : SessionConfig)
    → c.turn_detection ≡ null
    → (check_turn_detection o c).1.turn_detection ≡ null
unfolding check_turn_detection
check_turn_detection-null none c h = h
check_turn_detection-null (some null) c h = refl
check_turn_detection-null (some _) c h = h

turn_detection-update_languages :
    (session audio_in : Fields) (c : SessionConfig)
    → (update_languages session audio_in c).turn_detection ≡ c.turn_detection
unfolding update_languages
turn_detection-update_languages session audio_in c = ground arith

module _ {io : Io} where
  configured-IsSound :
      (c : SessionConfig) (s : Session)
      → c.turn_detection ≡ null
      → IsSound io s
      → IsSound io (record s { config = c })
  configured-IsSound c s h sound = record {
    buffered = sound.buffered;
    task = sound.task;
    no_vad = h;
  }

  announce_update-IsSound : (s : Session) → IsSound io s → IsSound io (announce_update io s)
  unfolding announce_update
  announce_update-IsSound s sound = send-IsSound _ _ _ (send-IsSound s _ _ sound)

  apply_update-IsSound :
      (ev : Option String) (session audio_in : Fields) (s : Session)
      → IsSound io s
      → IsSound io (apply_update io ev session audio_in s)
  unfolding apply_update
  apply_update-IsSound ev session audio_in s sound =
      let first = check_turn_detection (lookup "turn_detection" session) s.config in
      let second = check_turn_detection (lookup "turn_detection" audio_in) first.1 in
      let h = check_turn_detection-null (lookup "turn_detection" session) s.config sound.no_vad in
      let h' = check_turn_detection-null (lookup "turn_detection" audio_in) first.1 h in
      if_rule (IsSound io) first.0 _ _
        (λ _. send_error-IsSound _ _ _ _ (configured-IsSound first.1 s h sound))
        λ _.
          if_rule (IsSound io) second.0 _ _
            (λ _. send_error-IsSound _ _ _ _ (configured-IsSound second.1 s h' sound))
            λ _. announce_update-IsSound _ (
              configured-IsSound _ s
                (rw (turn_detection-update_languages session audio_in second.1) h') sound)

  updated-IsSound :
      (ev : Option String) (c : Check (Fields × Fields)) (s : Session)
      → IsSound io s
      → IsSound io (updated io ev c s).0
  unfolding updated
  updated-IsSound ev (accepts (session, audio_in)) s sound =
      apply_update-IsSound ev session audio_in s sound
  updated-IsSound ev (refuses m) s sound = send_error-IsSound s _ _ _ sound
  updated-IsSound ev raises s sound = sound

  on_session_update-IsSound :
      (msg : Fields) (ev : Option String) (s : Session)
      → IsSound io s
      → IsSound io (on_session_update io msg ev s).0
  unfolding on_session_update
  on_session_update-IsSound msg ev s sound = updated-IsSound ev (read_update msg) s sound

  IsSound-kept : IsKept io (IsSound io)
  unfolding on_status
  IsSound-kept = record {
    error = λ c m ev s. send_error-IsSound s c m ev;
    audio = λ bytes s p. handle_binary_audio-IsSound s p bytes;
    append = λ msg s p. on_audio_append_json-IsSound s p msg;
    commit = λ ev s p. on_commit-IsSound s p ev;
    clear = λ ev s p. on_clear-IsSound s p ev;
    status = λ s p. send-IsSound s _ _ p;
    update = on_session_update-IsSound;
    close = on_close-IsSound;
    cancel = on_cancel-IsSound;
    decoding = decode_step-IsSound;
    cancelling = request_cancel-IsSound;
    teardown = teardown_session-IsSound;
  }

  connect-IsSound : (id : String) → IsSound io (connect io id)
  unfolding connect
  connect-IsSound id = send-IsSound _ _ _ (
      send-IsSound _ _ _ (
        send-IsSound (new_session id) _ _ (record {
          buffered = record { within_cap = omega arith; whole_samples = refl };
          task = tt;
          no_vad = refl;
        })))

-- After any frames, decode steps, cancels and disconnects, from a fresh connection: the uncommitted
-- buffer holds whole samples within the cap, a decode task was given between one byte and the cap,
-- again whole samples, and turn detection is off.
pub run-IsSound :
    (io : Io) (id : String) (acts : List Act) → IsSound io (run io acts (connect io id))
run-IsSound io id acts =
    run_kept (IsSound io) IsSound-kept acts (connect io id) (connect-IsSound id)
