-- ===== src/Backends/Commit.antt =====
-- The commit-oriented streams of stt_server/backends: `_MLXStream` of mlx_whisper.py,
-- `_ParakeetStream` of parakeet.py, `_NemotronStream` of nemotron.py and `_KyutaiStream` of kyutai.py.
-- Their `feed`, `end`, `cancel` and `events` are the same code, but that a cancelled Kyutai stream
-- stops its decode.
pub mod Explained
pub mod Transcript
use pipecat_local_stt_server.Prelude.{
  ℕ, String, Bool, true, false, ◌||◌, ◌&&◌, Option, none, some, List, [], ◌∷◌, ◌++◌, str_eq,
  if◌then◌else◌,
}
use pipecat_local_stt_server.Session.Decode.{DecodeAct, delta, completed}

-- Where the coroutine `end` stands: not called; waiting for the decode lock; its decode thread
-- started and has not read the audio; the thread transcribes that audio; over.
pub data Stage : Type 0 where
  idle queued started : Stage
  transcribing : List ℕ → Stage
  over : Stage

pub record Stream : Type 0 where
  pub buf : List ℕ
  pub ended : Bool
  pub cancelled : Bool
  pub result : Option String
  pub stage : Stage

unfoldable pub open_stream : Stream
open_stream = record { buf = []; ended = false; cancelled = false; result = none; stage = idle }

-- What `_decode_sync` uses of its backend: the text of some audio, `none` where it raises, and
-- whether a cancelled stream returns no text instead.
pub record Decoder : Type 0 where
  pub transcribe : List ℕ → Option String
  pub stops_on_cancel : Bool

unfoldable pub is_empty : List ℕ → Bool
is_empty [] = true
is_empty (_ ∷ _) = false

unfoldable pub decode_sync : Decoder → Bool → List ℕ → Option String
unfolding is_empty
decode_sync d cancelled pcm =
    if is_empty pcm || (d.stops_on_cancel && cancelled) then some "" else d.transcribe pcm

pub data Act : Type 0 where
  feeds : List ℕ → Act
  ends : Act
  lock_granted : Act
  reads : Act
  returns : Act
  cancels : Act

unfoldable pub feed : List ℕ → Stream → Stream
feed chunk s = if s.cancelled then s else record s { buf = s.buf ++ chunk }

unfoldable pub end : Stream → Stream
end s = if s.ended || s.cancelled then s else record s { ended = true; stage = queued }

unfoldable pub cancel : Stream → Stream
cancel s = record s { cancelled = true; ended = true }

-- after `async with self._decode_lock`
abbrev pub take_lock : Stage → Stream → Stream
take_lock queued s = if s.cancelled then record s { stage = over } else record s { stage = started }
take_lock _ s = s

-- `bytes(self._buf)` on the decode thread
abbrev pub read_audio : Stage → Stream → Stream
read_audio started s = record s { stage = transcribing s.buf }
read_audio _ s = s

abbrev pub keep_result : Decoder → Stage → Stream → Stream
keep_result d (transcribing pcm) s = record s {
  stage = over;
  result = decode_sync d s.cancelled pcm;
}
keep_result d _ s = s

unfoldable pub next : Decoder → Act → Stream → Stream
unfolding feed end cancel decode_sync
next d (feeds chunk) s = feed chunk s
next d ends s = end s
next d lock_granted s = take_lock s.stage s
next d reads s = read_audio s.stage s
next d returns s = keep_result d s.stage s
next d cancels s = cancel s

unfoldable pub run : Decoder → List Act → Stream → Stream
unfolding next
run d [] s = s
run d (a ∷ acts) s = run d acts (next d a s)

unfoldable pub shown : String → List DecodeAct
shown text = if str_eq text "" then completed text ∷ [] else delta text ∷ completed text ∷ []

abbrev pub shown_result : Option String → List DecodeAct
shown_result none = []
shown_result (some text) = shown text

unfoldable pub events : Stream → List DecodeAct
unfolding shown
events s = if s.cancelled then [] else shown_result s.result
