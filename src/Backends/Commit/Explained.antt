-- ===== src/Backends/Commit/Explained.antt =====
-- What the streams of stt_server/backends say, in every order of their calls.
use pipecat_local_stt_server.Prelude.{
  ℕ, String, Bool, true, false, Option, none, some, List, [], ◌∷◌, ◌++◌, ◌≡◌, refl, sym, ◌∙◌, ap,
  ◌⊎◌, inl, inr, append_assoc, append-nil, if_rule, Bool-cases, subst, false≢true, ◌||◌,
}
use pipecat_local_stt_server.Session.Decode.{DecodeAct}
use pipecat_local_stt_server.Backends.Commit.{
  Stage, idle, queued, started, transcribing, over, Stream, open_stream, Decoder, decode_sync, Act,
  feeds, ends, lock_granted, reads, returns, cancels, feed, end, cancel, take_lock, read_audio,
  keep_result, next, run, shown, events,
}

abbrev pub IsPrefix : List ℕ → List ℕ → Type 0
IsPrefix xs ys = (rest : List ℕ) × (xs ++ rest ≡ ys)

-- the audio that was offered, in order
unfoldable pub offered : List Act → List ℕ
offered [] = []
offered (feeds chunk ∷ acts) = chunk ++ offered acts
offered (_ ∷ acts) = offered acts

-- The text is the transcript of a prefix of this audio.
abbrev pub IsTranscript : Decoder → List ℕ → String → Type 0
IsTranscript d audio text =
    (pcm : List ℕ) × IsPrefix pcm audio × (decode_sync d false pcm ≡ some text)

abbrev pub IsExplained : Decoder → List ℕ → List DecodeAct → Type 0
IsExplained d audio es =
    (es ≡ []) ⊎ ((text : String) × IsTranscript d audio text × (es ≡ shown text))

abbrev IsSaid : Decoder → List ℕ → Bool → Option String → Type 0
IsSaid d audio cancelled none = Unit
IsSaid d audio cancelled (some text) = (cancelled ≡ true) ⊎ IsTranscript d audio text

abbrev IsRead : List ℕ → Stage → Type 0
IsRead audio (transcribing pcm) = IsPrefix pcm audio
IsRead audio _ = Unit

-- The result is a transcript of a prefix of the buffer, and so will be that of the running decode.
record IsFaithful (d : Decoder) (s : Stream) : Type 0 where
  said : IsSaid d s.buf s.cancelled s.result
  read : IsRead s.buf s.stage

prefix_grows : (xs ys zs : List ℕ) → IsPrefix xs ys → IsPrefix xs (ys ++ zs)
prefix_grows xs ys zs (rest, e) = (rest ++ zs, sym (append_assoc xs rest zs) ∙ ap (λ l. l ++ zs) e)

IsSaid-grows :
    (d : Decoder) (audio chunk : List ℕ) (c : Bool) (r : Option String)
    → IsSaid d audio c r
    → IsSaid d (audio ++ chunk) c r
IsSaid-grows d audio chunk c none h = tt
IsSaid-grows d audio chunk c (some text) (inl on) = inl on
IsSaid-grows d audio chunk c (some text) (inr (pcm, p, t)) =
    inr (pcm, prefix_grows pcm audio chunk p, t)

IsRead-grows : (audio chunk : List ℕ) (st : Stage) → IsRead audio st → IsRead (audio ++ chunk) st
IsRead-grows audio chunk idle h = tt
IsRead-grows audio chunk queued h = tt
IsRead-grows audio chunk started h = tt
IsRead-grows audio chunk (transcribing pcm) h = prefix_grows pcm audio chunk h
IsRead-grows audio chunk over h = tt

IsSaid-cancelled :
    (d : Decoder) (audio : List ℕ) (c : Bool) (r : Option String) → c ≡ true → IsSaid d audio c r
IsSaid-cancelled d audio c none on = tt
IsSaid-cancelled d audio c (some text) on = inl on

IsSaid-decoded :
    (d : Decoder) (audio pcm : List ℕ) (c : Bool) (r : Option String)
    → IsPrefix pcm audio
    → decode_sync d false pcm ≡ r
    → IsSaid d audio c r
IsSaid-decoded d audio pcm c none p e = tt
IsSaid-decoded d audio pcm c (some text) p e = inr (pcm, p, e)

record Keeps (d : Decoder) (s t : Stream) : Type 0 where
  same : t.buf ≡ s.buf
  faithful : IsFaithful d t

end-Keeps : (d : Decoder) (s : Stream) → IsFaithful d s → Keeps d s (end s)
unfolding end
end-Keeps d s h =
    if_rule (Keeps d s) (s.ended || s.cancelled) s (record s { ended = true; stage = queued })
      (λ _. record { same = refl; faithful = h })
      (λ _. record { same = refl; faithful = record { said = h.said; read = tt } })

cancel-Keeps : (d : Decoder) (s : Stream) → IsFaithful d s → Keeps d s (cancel s)
unfolding cancel
cancel-Keeps d s h = record {
  same = refl;
  faithful = record { said = IsSaid-cancelled d s.buf true s.result refl; read = h.read };
}

lock-Keeps : (d : Decoder) (st : Stage) (s : Stream) → IsFaithful d s → Keeps d s (take_lock st s)
lock-Keeps d queued s h =
    if_rule (Keeps d s) s.cancelled (record s { stage = over }) (record s { stage = started })
      (λ _. record { same = refl; faithful = record { said = h.said; read = tt } })
      (λ _. record { same = refl; faithful = record { said = h.said; read = tt } })
lock-Keeps d idle s h = record { same = refl; faithful = h }
lock-Keeps d started s h = record { same = refl; faithful = h }
lock-Keeps d (transcribing pcm) s h = record { same = refl; faithful = h }
lock-Keeps d over s h = record { same = refl; faithful = h }

read-Keeps : (d : Decoder) (st : Stage) (s : Stream) → IsFaithful d s → Keeps d s (read_audio st s)
read-Keeps d started s h = record {
  same = refl;
  faithful = record { said = h.said; read = ([], append-nil s.buf) };
}
read-Keeps d idle s h = record { same = refl; faithful = h }
read-Keeps d queued s h = record { same = refl; faithful = h }
read-Keeps d (transcribing pcm) s h = record { same = refl; faithful = h }
read-Keeps d over s h = record { same = refl; faithful = h }

returned :
    (d : Decoder) (s : Stream) (pcm : List ℕ)
    → IsPrefix pcm s.buf
    → IsSaid d s.buf s.cancelled (decode_sync d s.cancelled pcm)
returned d s pcm p = elim (Bool-cases s.cancelled) [
  | inl on ↦ IsSaid-cancelled d s.buf s.cancelled (decode_sync d s.cancelled pcm) on
  | inr off ↦ IsSaid-decoded d s.buf pcm s.cancelled (decode_sync d s.cancelled pcm) p (rw off refl)
]

return-Keeps :
    (d : Decoder) (st : Stage) (s : Stream)
    → IsRead s.buf st
    → IsFaithful d s
    → Keeps d s (keep_result d st s)
return-Keeps d (transcribing pcm) s p h = record {
  same = refl;
  faithful = record { said = returned d s pcm p; read = tt };
}
return-Keeps d idle s p h = record { same = refl; faithful = h }
return-Keeps d queued s p h = record { same = refl; faithful = h }
return-Keeps d started s p h = record { same = refl; faithful = h }
return-Keeps d over s p h = record { same = refl; faithful = h }

feed-IsFaithful :
    (d : Decoder) (chunk : List ℕ) (s : Stream) → IsFaithful d s → IsFaithful d (feed chunk s)
unfolding feed
feed-IsFaithful d chunk s h =
    if_rule (IsFaithful d) s.cancelled s (record s { buf = s.buf ++ chunk }) (λ _. h)
      (λ _. record {
        said = IsSaid-grows d s.buf chunk s.cancelled s.result h.said;
        read = IsRead-grows s.buf chunk s.stage h.read;
      })

lock_cancelled : (st : Stage) (s : Stream) → s.cancelled ≡ true → (take_lock st s).cancelled ≡ true
lock_cancelled queued s on = rw on refl
lock_cancelled idle s on = on
lock_cancelled started s on = on
lock_cancelled (transcribing pcm) s on = on
lock_cancelled over s on = on

read_cancelled : (st : Stage) (s : Stream) → s.cancelled ≡ true → (read_audio st s).cancelled ≡ true
read_cancelled started s on = on
read_cancelled idle s on = on
read_cancelled queued s on = on
read_cancelled (transcribing pcm) s on = on
read_cancelled over s on = on

return_cancelled :
    (d : Decoder) (st : Stage) (s : Stream)
    → s.cancelled ≡ true
    → (keep_result d st s).cancelled ≡ true
return_cancelled d (transcribing pcm) s on = on
return_cancelled d idle s on = on
return_cancelled d queued s on = on
return_cancelled d started s on = on
return_cancelled d over s on = on

feed_buf : (chunk : List ℕ) (s : Stream) → s.cancelled ≡ false → (feed chunk s).buf ≡ s.buf ++ chunk
unfolding feed
feed_buf chunk s off = rw off refl

next_cancelled :
    (d : Decoder) (a : Act) (s : Stream) → s.cancelled ≡ true → (next d a s).cancelled ≡ true
unfolding next feed end cancel
next_cancelled d (feeds chunk) s on = rw on refl
next_cancelled d ends s on =
    if_rule (λ (t : Stream). t.cancelled ≡ true) (s.ended || s.cancelled) s
      (record s { ended = true; stage = queued }) (λ _. on) (λ _. on)
next_cancelled d lock_granted s on = lock_cancelled s.stage s on
next_cancelled d reads s on = read_cancelled s.stage s on
next_cancelled d returns s on = return_cancelled d s.stage s on
next_cancelled d cancels s on = refl

run_cancelled :
    (d : Decoder) (acts : List Act) (s : Stream) → s.cancelled ≡ true → events (run d acts s) ≡ []
unfolding run events
run_cancelled d [] s on = rw on refl
run_cancelled d (a ∷ acts) s on = run_cancelled d acts (next d a s) (next_cancelled d a s on)

-- A stream that was cancelled says nothing, whatever was called before and is called after.
pub cancelled_is_silent :
    (d : Decoder) (before after : List Act) (s : Stream)
    → events (run d (before ++ cancels ∷ after) s) ≡ []
unfolding run next cancel
cancelled_is_silent d [] after s = run_cancelled d after (cancel s) refl
cancelled_is_silent d (a ∷ before) after s = cancelled_is_silent d before after (next d a s)

now-IsExplained :
    (d : Decoder) (audio : List ℕ) (c : Bool) (s : Stream)
    → s.cancelled ≡ c
    → (r : Option String) → s.result ≡ r
    → IsSaid d audio c r
    → IsExplained d audio (events s)
unfolding events
now-IsExplained d audio true s on r e h = inl (rw on refl)
now-IsExplained d audio false s off none e h = inl (rw off (rw e refl))
now-IsExplained d audio false s off (some text) e (inl on) = absurd (false≢true on)
now-IsExplained d audio false s off (some text) e (inr t) = inr (text, t, rw off (rw e refl))

abbrev IsAllExplained : Decoder → List Act → List ℕ → Stream → Type 0
IsAllExplained d acts audio t = IsExplained d (audio ++ offered acts) (events (run d acts t))

moved :
    (d : Decoder) (acts : List Act) (s t : Stream)
    → Keeps d s t
    → IsAllExplained d acts t.buf t
    → IsAllExplained d acts s.buf t
moved d acts s t k = subst (λ audio. IsAllExplained d acts audio t) k.same

run-IsExplained :
    (d : Decoder) (acts : List Act) (s : Stream)
    → IsFaithful d s
    → IsExplained d (s.buf ++ offered acts) (events (run d acts s))
unfolding run next offered
run-IsExplained d [] s h =
    subst (λ audio. IsExplained d audio (events s)) (sym (append-nil s.buf))
      (now-IsExplained d s.buf s.cancelled s refl s.result refl h.said)
run-IsExplained d (feeds chunk ∷ acts) s h = elim (Bool-cases s.cancelled) [
  | inl on ↦ inl (run_cancelled d (feeds chunk ∷ acts) s on)
  | inr off ↦
      subst (λ audio. IsExplained d audio (events (run d acts (feed chunk s))))
        (ap (λ l. l ++ offered acts) (feed_buf chunk s off)
          ∙ append_assoc s.buf chunk (offered acts))
        (run-IsExplained d acts (feed chunk s) (feed-IsFaithful d chunk s h))
]
run-IsExplained d (ends ∷ acts) s h =
    let k = end-Keeps d s h in moved d acts s (end s) k (run-IsExplained d acts (end s) k.faithful)
run-IsExplained d (lock_granted ∷ acts) s h =
    let k = lock-Keeps d s.stage s h in
    moved d acts s (take_lock s.stage s) k (run-IsExplained d acts (take_lock s.stage s) k.faithful)
run-IsExplained d (reads ∷ acts) s h =
    let k = read-Keeps d s.stage s h in
    moved d acts s (read_audio s.stage s) k
      (run-IsExplained d acts (read_audio s.stage s) k.faithful)
run-IsExplained d (returns ∷ acts) s h =
    let k = return-Keeps d s.stage s h.read h in
    moved d acts s (keep_result d s.stage s) k
      (run-IsExplained d acts (keep_result d s.stage s) k.faithful)
run-IsExplained d (cancels ∷ acts) s h =
    let k = cancel-Keeps d s h in
    moved d acts s (cancel s) k (run-IsExplained d acts (cancel s) k.faithful)

-- In whatever order a fresh stream is fed, ended, cancelled and decoded, its events are none, or those
-- of one text that the decoder gives for a prefix of the audio offered, in the order of the feeds.
pub events-IsExplained :
    (d : Decoder) (acts : List Act) → IsExplained d (offered acts) (events (run d acts open_stream))
unfolding open_stream
events-IsExplained d acts = run-IsExplained d acts open_stream (record { said = tt; read = tt })
