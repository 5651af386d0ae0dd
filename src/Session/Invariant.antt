-- ===== src/Session/Invariant.antt =====
-- What holds of a session between any two steps.
use pipecat_local_stt_server.Prelude.{
  ℕ, suc, ◌≤◌, ◌<◌, ◌+◌, ◌%◌, String, Bool, true, false, not, Option, none, some, List, [], ◌++◌,
  ◌≡◌, refl, inl, inr, arith, length, length-append, ltb, ltb→le, ◌==◌, if_rule, Option-cases,
}
use pipecat_local_stt_server.Json.{null, Fields, lookup, as_str}
use pipecat_local_stt_server.Protocol.{ErrorCode}
use pipecat_local_stt_server.Session.State.{
  Message, error, audio_committed, DecodeTask, ServerEvent, Session, Io,
}
use pipecat_local_stt_server.Session.Send.{send, send_error, error_object, echoed}
use pipecat_local_stt_server.Session.Audio.{
  busy, handle_binary_audio, append_text, on_audio_append_json, accept_commit, on_commit, on_clear,
}
use pipecat_local_stt_server.Session.Sending.{SameWork, send-SameWork}

-- Audio that a client may have buffered: whole samples, at most the cap.
pub record IsBuffered (io : Io) (bytes : List ℕ) : Type 0 where
  pub within_cap : length bytes ≤ io.max_uncommitted_bytes
  pub whole_samples : length bytes % 2 ≡ 0

-- A decode task has some audio, which was buffered, and an item id that was minted.
abbrev pub IsTask : Io → ℕ → Option DecodeTask → Type 0
IsTask io items none = Unit
IsTask io items (some t) = (0 < length t.audio) × IsBuffered io t.audio × (t.item < items)

pub record IsSound (io : Io) (s : Session) : Type 0 where
  pub buffered : IsBuffered io s.buffer
  pub task : IsTask io s.items s.in_flight
  pub no_vad : s.config.turn_detection ≡ null

pub SameWork-IsSound : {io : Io} {s t : Session} → SameWork s t → IsSound io s → IsSound io t
SameWork-IsSound {io} same sound = record {
  buffered = rw same.buffer sound.buffered;
  task = rw same.items (rw same.in_flight sound.task);
  no_vad = rw same.config sound.no_vad;
}

pub send-IsSound :
    {io : Io} (s : Session) (force : Bool) (e : ServerEvent)
    → IsSound io s
    → IsSound io (send io force e s)
send-IsSound {io} s force e = SameWork-IsSound (send-SameWork io s force e)

pub send_error-IsSound :
    {io : Io} (s : Session) (c : ErrorCode) (m : Message) (ev : Option String)
    → IsSound io s
    → IsSound io (send_error io c m ev s)
unfolding send_error
send_error-IsSound s c m ev = send-IsSound s true (error (error_object c m ev))

pub emptied-IsSound : {io : Io} (s : Session) → IsSound io s → IsSound io (record s { buffer = [] })
emptied-IsSound s sound = record {
  buffered = record { within_cap = omega arith; whole_samples = refl };
  task = sound.task;
  no_vad = sound.no_vad;
}

not-false : (n : ℕ) → not (n == 0) ≡ false → n ≡ 0
not-false n h = ground arith

module _ {io : Io} (s : Session) (sound : IsSound io s) where
  append_room :
      (bytes : List ℕ)
      → not (length bytes % 2 == 0) ≡ false
      → ltb io.max_uncommitted_bytes (length s.buffer + length bytes) ≡ false
      → IsSound io (record s { buffer = s.buffer ++ bytes })
  append_room bytes whole room = record {
    buffered = record {
      within_cap = rw (length-append s.buffer bytes) (ltb→le _ _ room);
      whole_samples =
          rw (length-append s.buffer bytes)
            (omega (arith, sound.buffered.whole_samples, not-false (length bytes % 2) whole));
    };
    task = sound.task;
    no_vad = sound.no_vad;
  }

  pub handle_binary_audio-IsSound : (bytes : List ℕ) → IsSound io (handle_binary_audio io bytes s)
  unfolding handle_binary_audio
  handle_binary_audio-IsSound bytes =
      if_rule (IsSound io) (busy s) _ _ (λ _. send_error-IsSound s _ _ _ sound)
        λ _.
          if_rule (IsSound io) (ltb io.max_append_bytes (length bytes)) _ _
            (λ _. send_error-IsSound s _ _ _ sound)
            λ _.
              if_rule (IsSound io) (not (length bytes % 2 == 0)) _ _
                (λ _. send_error-IsSound s _ _ _ sound)
                λ odd.
                  if_rule (IsSound io)
                    (ltb io.max_uncommitted_bytes (length s.buffer + length bytes)) _ _
                    (λ _. send_error-IsSound s _ _ _ sound) (append_room bytes odd)

  pub on_audio_append_json-IsSound : (msg : Fields) → IsSound io (on_audio_append_json io msg s)
  unfolding on_audio_append_json
  on_audio_append_json-IsSound msg = elim (Option-cases (as_str (lookup "audio" msg))) [
    | inl e ↦ rw (e, append_text) (send_error-IsSound s _ _ _ sound)
    | inr (a, e) ↦ elim (Option-cases (io.b64decode a)) [
      | inl f ↦ rw (e, f) (send_error-IsSound s _ _ _ sound)
      | inr (bytes, f) ↦ rw (e, f) (handle_binary_audio-IsSound bytes)
    ]
  ]

  accept_commit-IsSound :
      (ev : Option String) → (length s.buffer == 0) ≡ false → IsSound io (accept_commit io ev s)
  unfolding accept_commit
  accept_commit-IsSound ev filled =
      let cleared : Session = record s { buffer = []; items = suc s.items } in
      let same = send-SameWork io cleared false (audio_committed s.items (echoed ev)) in
      record {
        buffered = rw same.buffer (record { within_cap = omega arith; whole_samples = refl });
        task = rw same.items (ground arith, sound.buffered, omega arith);
        no_vad = rw same.config sound.no_vad;
      }

  pub on_commit-IsSound : (ev : Option String) → IsSound io (on_commit io ev s)
  unfolding on_commit
  on_commit-IsSound ev =
      if_rule (IsSound io) (length s.buffer == 0) _ _ (λ _. send_error-IsSound s _ _ _ sound)
        λ filled.
          if_rule (IsSound io) (busy s) _ _ (λ _. send_error-IsSound s _ _ _ sound)
            λ _. accept_commit-IsSound ev filled

  pub on_clear-IsSound : (ev : Option String) → IsSound io (on_clear io ev s)
  unfolding on_clear
  on_clear-IsSound ev =
      if_rule (IsSound io) (busy s) _ _ (λ _. send_error-IsSound s _ _ _ sound)
        λ _. send-IsSound (record s { buffer = [] }) false _ (emptied-IsSound s sound)
