-- ===== src/Session/Configured.antt =====
-- How a session update is answered: `_on_session_update` of stt_server/server.py.
use pipecat_local_stt_server.Prelude.{
  String, Bool, true, false, ◌||◌, Option, none, some, ◌≡◌, refl, ◌∙◌, ap, ◌⊎◌, inl, inr, arith,
  Bool-cases, if◌then◌else◌,
}
use pipecat_local_stt_server.Protocol.{invalid_config}
use pipecat_local_stt_server.Json.{Json, null, obj, Fields, lookup}
use pipecat_local_stt_server.Session.State.{text, SessionConfig, Session, Io}
use pipecat_local_stt_server.Session.Send.{send_error}
use pipecat_local_stt_server.Session.Update.{
  Check, accepts, refuses, raises, read_update, check_turn_detection, set_language, nested_language,
  turn_detection_error, update_languages, announce_update, apply_update, updated, on_session_update,
}
use pipecat_local_stt_server.Session.Refusals.{
  IsRefused, IsOdd, IsTaken, ReadsAs, wants, wants_detection, read_update-ReadsAs,
}

-- the value that is given last, if any
abbrev or_keep : Option Json → Option Json → Option Json
or_keep none before = before
or_keep (some v) before = some v

abbrev transcribed : Option Json → Option Json
transcribed (some (obj fs)) = lookup "language" fs
transcribed _ = none

-- the language of the transcription, or of the input, or the one before
abbrev pub language_after : Fields → Fields → Option Json → Option Json
language_after session audio_in before =
    or_keep (transcribed (lookup "input_audio_transcription" session))
      (or_keep (lookup "language" audio_in) before)

set-or_keep :
    (o : Option Json) (c : SessionConfig)
    → set_language o c ≡ record c { language = or_keep o c.language }
unfolding set_language
set-or_keep none c = refl
set-or_keep (some v) c = refl

nested-transcribed : (o : Option Json) → nested_language o ≡ transcribed o
unfolding nested_language
nested-transcribed (some (obj fs)) = refl
nested-transcribed none = refl
nested-transcribed (some _) = refl

update-language_after :
    (session audio_in : Fields) (c : SessionConfig)
    → update_languages session audio_in c
      ≡ record c { language = language_after session audio_in c.language }
unfolding update_languages
update-language_after session audio_in c =
    rw (nested-transcribed (lookup "input_audio_transcription" session)) (
      rw (set-or_keep (lookup "language" audio_in) c) (
        set-or_keep (transcribed (lookup "input_audio_transcription" session))
          (record c { language = or_keep (lookup "language" audio_in) c.language })))

-- where turn detection is off, a round of the loop leaves the configuration as it is
check_turn_detection-same :
    (o : Option Json) (c : SessionConfig)
    → c.turn_detection ≡ null
    → (check_turn_detection o c).1 ≡ c
unfolding check_turn_detection
check_turn_detection-same none c off = refl
check_turn_detection-same (some null) c off = ground arith
check_turn_detection-same (some _) c off = refl

check_turn_detection-wants :
    (o : Option Json) (c : SessionConfig) → (check_turn_detection o c).0 ≡ wants o
unfolding check_turn_detection
check_turn_detection-wants none c = refl
check_turn_detection-wants (some null) c = refl
check_turn_detection-wants (some _) c = refl

abbrev vad_message : String
vad_message = "server VAD is not implemented; use turn_detection: null"

-- An update that is refused, with the message: for its format, or for turn detection.
abbrev pub IsRefusal : Fields → String → Type 0
IsRefusal msg m =
    IsRefused msg m
    ⊎ ((session : Fields) × (audio_in : Fields) × IsTaken msg session audio_in
        × (wants_detection session || wants_detection audio_in ≡ true)
        × (m ≡ "server VAD is not implemented; use turn_detection: null"))

-- The answer to an update that is accepted, refused, or has a part that is no dict.
abbrev pub UpdateOutcome : Io → Fields → Option String → Session → Session × Bool → Type 0
UpdateOutcome io msg ev s r =
    ((session : Fields) × (audio_in : Fields) × IsTaken msg session audio_in
      × (wants_detection session ≡ false)
      × (wants_detection audio_in ≡ false)
      × (r ≡ (
        announce_update io (record s {
          config = record {
            turn_detection = null;
            language = language_after session audio_in s.config.language;
          };
        }),
        false,
      )))
    ⊎ (((m : String) × IsRefusal msg m × (r ≡ (send_error io invalid_config (text m) ev s, false)))
        ⊎ (IsOdd msg × (r ≡ (s, true))))

module _ (io : Io) (msg : Fields) (ev : Option String) (s : Session)
    (off : s.config.turn_detection ≡ null) where
  -- what `apply_update` gives, for whether turn detection is asked for
  abbrev applied : Bool → Bool → SessionConfig → SessionConfig → SessionConfig → Session
  applied first second c c' last =
      if first
      then send_error io invalid_config (text vad_message) ev (record s { config = c })
      else if second
      then send_error io invalid_config (text vad_message) ev (record s { config = c' })
      else announce_update io (record s { config = last })

  apply-applied :
      (session audio_in : Fields)
      → apply_update io ev session audio_in s
        ≡ applied (wants_detection session) (wants_detection audio_in) s.config s.config (record {
          turn_detection = null;
          language = language_after session audio_in s.config.language;
        })
  unfolding apply_update turn_detection_error
  apply-applied session audio_in =
      let a = lookup "turn_detection" session in
      let b = lookup "turn_detection" audio_in in
      let c : SessionConfig = (check_turn_detection a s.config).1 in
      let c' : SessionConfig = (check_turn_detection b c).1 in
      let same : c ≡ s.config = check_turn_detection-same a s.config off in
      let same' : c' ≡ s.config =
        check_turn_detection-same b c (ap (λ (d : SessionConfig). d.turn_detection) same ∙ off)
        ∙ same in
      let last =
        update-language_after session audio_in c'
        ∙ ap
            (λ (d : SessionConfig). record d {
              language = language_after session audio_in d.language;
            })
            same'
        ∙ ap
            (λ (td : Json). record s.config {
              turn_detection = td;
              language = language_after session audio_in s.config.language;
            })
            off in
      λ i.
        applied (check_turn_detection-wants a s.config i) (check_turn_detection-wants b c i)
          (same i) (same' i) (last i)

  apply_outcome :
      (session audio_in : Fields)
      → IsTaken msg session audio_in
      → UpdateOutcome io msg ev s (apply_update io ev session audio_in s, false)
  apply_outcome session audio_in taken =
      rw (apply-applied session audio_in) (elim (Bool-cases (wants_detection session)) [
        | inl first ↦
            rw first
              (inr (inl (vad_message, inr (session, audio_in, taken, rw first refl, refl), refl)))
        | inr none_first ↦ elim (Bool-cases (wants_detection audio_in)) [
          | inl second ↦
              rw (none_first, second)
                (inr (
                  inl (
                    vad_message,
                    inr (session, audio_in, taken, rw (none_first, second) refl, refl),
                    refl,
                  )))
          | inr neither ↦
              rw (none_first, neither) (inl (session, audio_in, taken, none_first, neither, refl))
        ]
      ])

  updated_outcome :
      (c : Check (Fields × Fields)) → ReadsAs msg c → UpdateOutcome io msg ev s (updated io ev c s)
  unfolding updated
  updated_outcome (accepts (session, audio_in)) taken = apply_outcome session audio_in taken
  updated_outcome (refuses m) refused = inr (inl (m, inl refused, refl))
  updated_outcome raises odd = inr (inr (odd, refl))

-- A session update is answered by what it holds. One whose parts are dicts, with the format of 16 kHz mono
-- pcm16 wherever one is given and no turn detection, is accepted and announced, and sets the language, to the
-- one of its transcription or else of its input, if either is given. One that gives another format, or then
-- asks for turn detection, is answered by an `invalid_config` error with the message for the first such
-- thing, and one with a part that is no dict where a field of it is read raises; neither changes the
-- configuration. The session's turn detection is off, as it is in every reachable state.
pub update_outcome :
    (io : Io) (msg : Fields) (ev : Option String) (s : Session)
    → s.config.turn_detection ≡ null
    → UpdateOutcome io msg ev s (on_session_update io msg ev s)
unfolding on_session_update
update_outcome io msg ev s off =
    updated_outcome io msg ev s off (read_update msg) (read_update-ReadsAs msg)
