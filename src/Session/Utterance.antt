-- ===== src/Session/Utterance.antt =====
-- One utterance from its first append to its transcript.
use pipecat_local_stt_server.Prelude.{
  ℕ, suc, ◌+◌, ◌%◌, ◌≤◌, String, false, not, Option, none, some, List, [], ◌∷◌, ◌++◌, ◌≡◌, refl,
  ◌∙◌, ap, sym, arith, append-nil, append_assoc, Bool-cases, inl, inr, ◌⊎◌, length, length-append,
  ltb, ◌==◌,
}
use pipecat_local_stt_server.Protocol.{invalid_event, payload_too_large, buffer_overflow, ErrorCode}
use pipecat_local_stt_server.Session.State.{
  Message, text, odd_length, audio_committed, opening, Session, Io,
}
use pipecat_local_stt_server.Session.Send.{send_error, echoed}
use pipecat_local_stt_server.Session.Audio.{busy, handle_binary_audio, accept_commit, on_commit}
use pipecat_local_stt_server.Session.Sending.{send-SameWork}

-- An append that the server takes.
pub record IsAdmissible (io : Io) (bytes : List ℕ) (s : Session) : Type 0 where
  pub idle : busy s ≡ false
  pub small : length bytes ≤ io.max_append_bytes
  pub whole : length bytes % 2 ≡ 0
  pub fits : length s.buffer + length bytes ≤ io.max_uncommitted_bytes

-- The reply to an append that the server refuses.
abbrev pub IsRefusal : Io → Session → Session → Type 0
IsRefusal io s t =
    (c : ErrorCode) × (m : Message) × ((c ≡ invalid_event)
      ⊎ (c ≡ payload_too_large)
      ⊎ (c ≡ buffer_overflow))
    × (t ≡ send_error io c m none s)

-- An append is taken exactly when no decode is in flight, it is at most one append's size, it has
-- whole samples and the buffer has room; then its bytes follow the buffered ones and nothing else
-- changes. Any other append is answered by an error, and changes nothing else.
pub append_exact :
    (io : Io) (bytes : List ℕ) (s : Session)
    → (IsAdmissible io bytes s
        → handle_binary_audio io bytes s ≡ record s { buffer = s.buffer ++ bytes })
      × (¬ IsAdmissible io bytes s → IsRefusal io s (handle_binary_audio io bytes s))
unfolding handle_binary_audio
append_exact io bytes s = (λ h. ground arith, refusal)
  where
    refusal : ¬ IsAdmissible io bytes s → IsRefusal io s (handle_binary_audio io bytes s)
    refusal h = elim (Bool-cases (busy s)) [
      | inl e ↦ (invalid_event, text "audio append while previous decode in flight", inl refl, rw e)
      | inr idle ↦ elim (Bool-cases (ltb io.max_append_bytes (length bytes))) [
        | inl e ↦ (
          payload_too_large,
          text "binary audio exceeds max_append_bytes",
          inr (inl refl),
          rw (idle, e),
        )
        | inr small ↦ elim (Bool-cases (not (length bytes % 2 == 0))) [
          | inl e ↦ (invalid_event, odd_length (length bytes), inl refl, rw (idle, small, e))
          | inr whole ↦
              elim (Bool-cases (ltb io.max_uncommitted_bytes (length s.buffer + length bytes))) [
                | inl e ↦ (
                  buffer_overflow,
                  text "uncommitted audio exceeds per-session cap",
                  inr (inr refl),
                  rw (idle, small, whole, e),
                )
                | inr fits ↦ absurd (h (ground arith))
              ]
        ]
      ]
    ]

-- the appends of one utterance, in order
pub append_all : Io → List (List ℕ) → Session → Session
append_all io [] s = s
append_all io (chunk ∷ chunks) s = append_all io chunks (handle_binary_audio io chunk s)

abbrev pub concat : List (List ℕ) → List ℕ
concat [] = []
concat (chunk ∷ chunks) = chunk ++ concat chunks

-- every chunk is whole samples and no longer than one append may be
abbrev pub AllAppends : Io → List (List ℕ) → Type 0
AllAppends io [] = Unit
AllAppends io (chunk ∷ chunks) =
    (length chunk ≤ io.max_append_bytes) × (length chunk % 2 ≡ 0) × AllAppends io chunks

-- The buffer gathers the chunks in order.
append_all-concat :
    (io : Io) (chunks : List (List ℕ)) (s : Session)
    → busy s ≡ false
    → AllAppends io chunks
    → length s.buffer + length (concat chunks) ≤ io.max_uncommitted_bytes
    → append_all io chunks s ≡ record s { buffer = s.buffer ++ concat chunks }
unfolding append_all
append_all-concat io [] s idle ok room =
    ap (λ (b : List ℕ). record s { buffer = b }) (sym (append-nil s.buffer))
append_all-concat io (chunk ∷ chunks) s idle ok room =
    let taken : handle_binary_audio io chunk s ≡ record s { buffer = s.buffer ++ chunk } =
      (append_exact io chunk s).0 (record {
        idle = idle;
        small = ok.0;
        whole = ok.1;
        fits = omega (arith, length-append chunk (concat chunks), room);
      }) in
    rw taken (
      append_all-concat io chunks (record s { buffer = s.buffer ++ chunk }) idle ok.2
        (omega (arith, length-append s.buffer chunk, length-append chunk (concat chunks), room))
      ∙ ap (λ (b : List ℕ). record s { buffer = b }) (append_assoc s.buffer chunk (concat chunks)))

-- A commit hands the whole buffer to a new decode task, under a fresh item id, and empties it.
commit_takes_buffer :
    (io : Io) (ev : Option String) (s : Session)
    → busy s ≡ false
    → 1 ≤ length s.buffer
    → ((on_commit io ev s).in_flight
        ≡ some (record { item = s.items; audio = s.buffer; phase = opening }))
      × ((on_commit io ev s).buffer ≡ [])
      × ((on_commit io ev s).items ≡ suc s.items)
unfolding on_commit accept_commit
commit_takes_buffer io ev s idle filled =
    let cleared : Session = record s { buffer = []; items = suc s.items } in
    let same = send-SameWork io cleared false (audio_committed s.items (echoed ev)) in
    (ground arith, ground (arith, same.buffer), ground (arith, same.items))

-- On an idle session with an empty buffer, appends of whole samples that each and together keep
-- the limits, and then a commit, start one decode task: on exactly the bytes appended, in their
-- order, under the next item id. The buffer is empty again.
pub upload_reaches_decoder :
    (io : Io) (ev : Option String) (chunks : List (List ℕ)) (s : Session)
    → busy s ≡ false
    → s.buffer ≡ []
    → AllAppends io chunks
    → length (concat chunks) ≤ io.max_uncommitted_bytes
    → 1 ≤ length (concat chunks)
    → let t = on_commit io ev (append_all io chunks s) in
      (t.in_flight ≡ some (record { item = s.items; audio = concat chunks; phase = opening }))
      × (t.buffer ≡ [])
      × (t.items ≡ suc s.items)
upload_reaches_decoder io ev chunks s idle empty ok room filled =
    let bytes : s.buffer ++ concat chunks ≡ concat chunks = rw empty refl in
    let gathered : append_all io chunks s ≡ record s { buffer = concat chunks } =
      append_all-concat io chunks s idle ok (rw empty (omega (arith, room)))
      ∙ ap (λ (b : List ℕ). record s { buffer = b }) bytes in
    rw gathered (commit_takes_buffer io ev (record s { buffer = concat chunks }) idle filled)
