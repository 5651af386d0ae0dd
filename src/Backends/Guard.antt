-- ===== src/Backends/Guard.antt =====
-- The decode guard of stt_server/backends/_thread_util.py: how many decode threads are in flight, and
-- who waits until there is none.
use pipecat_local_stt_server.Prelude.{
  ℕ, suc, ◌+◌, ◌-◌, Bool, List, [], ◌∷◌, ◌≡◌, arith, ◌==◌, ltb, if◌then◌else◌, if_rule,
}

-- `running`: the daemon threads whose decode has not come to its `finally`. `waiting`: the
-- incomplete futures of `idle()`. `completed`: the completed ones.
pub record Guard : Type 0 where
  pub inflight_count : ℕ
  pub running : ℕ
  pub waiting : ℕ
  pub completed : ℕ

unfoldable pub init_decode_guards : Guard
init_decode_guards = record { inflight_count = 0; running = 0; waiting = 0; completed = 0 }

unfoldable pub mark_inflight_start : Guard → Guard
mark_inflight_start g = record g { inflight_count = suc g.inflight_count }

-- `notify_all`: each waiter finds the count at zero. In the code a waiter looks again once it wakes,
-- and waits on if a decode was marked in between.
unfoldable pub notify_all : Guard → Guard
notify_all g = record g { waiting = 0; completed = g.completed + g.waiting }

-- The count is never zero here, by the theorem below, so the subtraction is Python's.
unfoldable pub mark_inflight_end : Guard → Guard
unfolding notify_all
mark_inflight_end g =
    let less : Guard = record g { inflight_count = g.inflight_count - 1 } in
    if less.inflight_count == 0 then notify_all less else less

-- `_run_guarded_decode`; `starts`: whether `Thread.start` succeeds
unfoldable pub run_guarded_decode : Bool → Guard → Guard
unfolding mark_inflight_start mark_inflight_end
run_guarded_decode starts g =
    let marked : Guard = mark_inflight_start g in
    if starts then record marked { running = suc marked.running } else mark_inflight_end marked

-- the `finally` of a decode, on one of the running threads
unfoldable pub decode_ends : Guard → Guard
unfolding mark_inflight_end
decode_ends g =
    if ltb 0 g.running then mark_inflight_end (record g { running = g.running - 1 }) else g

unfoldable pub idle : Guard → Guard
idle g =
    if g.inflight_count == 0
    then record g { completed = suc g.completed }
    else record g { waiting = suc g.waiting }

pub data Event : Type 0 where
  decodes : Bool → Event
  ends : Event
  asks_idle : Event

unfoldable pub next : Event → Guard → Guard
unfolding run_guarded_decode decode_ends idle
next (decodes starts) g = run_guarded_decode starts g
next ends g = decode_ends g
next asks_idle g = idle g

unfoldable pub run : List Event → Guard → Guard
unfolding next
run [] g = g
run (e ∷ es) g = run es (next e g)

-- The count is that of the running threads, and nobody waits while none runs.
pub record IsBalanced (g : Guard) : Type 0 where
  pub counted : g.inflight_count ≡ g.running
  pub none_waits : g.running ≡ 0 → g.waiting ≡ 0

ended-IsBalanced : (g : Guard) → g.inflight_count ≡ suc g.running → IsBalanced (mark_inflight_end g)
unfolding mark_inflight_end notify_all
ended-IsBalanced g h = record { counted = ground arith; none_waits = ground arith }

next-IsBalanced : (e : Event) (g : Guard) → IsBalanced g → IsBalanced (next e g)
unfolding next run_guarded_decode decode_ends idle mark_inflight_start
next-IsBalanced (decodes starts) g b =
    if_rule IsBalanced starts _ _
      (λ _. record { counted = ground (arith, b.counted); none_waits = ground arith })
      λ _. ended-IsBalanced (mark_inflight_start g) (ground (arith, b.counted))
next-IsBalanced ends g b =
    if_rule IsBalanced (ltb 0 g.running) _ _
      (λ some_run.
        ended-IsBalanced (record g { running = g.running - 1 }) (ground (arith, b.counted)))
      λ _. b
next-IsBalanced asks_idle g b =
    if_rule IsBalanced (g.inflight_count == 0) _ _
      (λ _. record { counted = b.counted; none_waits = b.none_waits })
      λ busy. record { counted = b.counted; none_waits = ground (arith, b.counted) }

-- Whatever decodes are begun, with a thread that starts or not, and end, and whoever asks: the count
-- is that of the running threads, so a failed start is undone, and no future of `idle()` is left
-- waiting while none runs.
pub run-IsBalanced : (es : List Event) (g : Guard) → IsBalanced g → IsBalanced (run es g)
unfolding run
run-IsBalanced [] g b = b
run-IsBalanced (e ∷ es) g b = run-IsBalanced es (next e g) (next-IsBalanced e g b)
