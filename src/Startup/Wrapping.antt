-- ===== src/Startup/Wrapping.antt =====
-- An exception that only wraps another one is classified like it.
use pipecat_local_stt_server.Prelude.{
  ℕ, zero, suc, ◌<◌, String, Bool, false, Option, none, some, List, [], ◌∷◌, ◌≡◌, refl, arith, ap,
  ◌∙◌, contains, is_some,
}
use pipecat_local_stt_server.Startup.{
  Heap, Exception, Errno, Code, is_config_error, next_of, prepend, walk, same_errno, is_download,
  first, judge_in, judge, code_of, classified, classify_startup_error,
}
use pipecat_local_stt_server.Startup.Chain.{Below, IsClosed}

-- an exception that says nothing by itself
pub record IsPlain (errno : Errno) (e : Exception) : Type 0 where
  pub no_config : is_config_error e ≡ false
  pub no_import : e.is_import_error ≡ false
  pub not_in_use : same_errno errno.eaddrinuse e.errno ≡ false
  pub not_denied : same_errno errno.eacces e.errno ≡ false
  pub no_download : (in_phase : Bool) → is_download in_phase e ≡ false
  pub no_phase : e.in_download ≡ false
  pub valid : e.model_invalid ≡ false

-- the walk only asks which of the exceptions below `n` were seen
same_walk :
    (n : ℕ) (heap : Heap) (fuel : ℕ) (seen seen' : List ℕ) (cur : Option ℕ)
    → IsClosed n heap
    → Below n cur
    → ((i : ℕ) → i < n → contains seen' i ≡ contains seen i)
    → walk fuel heap seen' cur ≡ walk fuel heap seen cur
unfolding walk
same_walk n heap zero seen seen' none closed below same = refl
same_walk n heap zero seen seen' (some id) closed below same = refl
same_walk n heap (suc fuel) seen seen' none closed below same = refl
same_walk n heap (suc fuel) seen seen' (some id) closed below same =
    let rest =
      same_walk n heap fuel (id ∷ seen) (id ∷ seen') (next_of heap id) closed (closed id below)
        (λ i small. let e = same i small in ground arith) in
    rw (same id below, rest) refl

skip :
    (test : Exception → Bool) (heap : Heap) (id : ℕ) (chain : List ℕ)
    → test (heap id) ≡ false
    → first test heap (id ∷ chain) ≡ first test heap chain
skip test heap id chain h = rw h refl

plain_in :
    (in_phase : Bool) (errno : Errno) (heap : Heap) (id : ℕ) (chain : List ℕ)
    → IsPlain errno (heap id)
    → judge_in in_phase errno heap (id ∷ chain) ≡ judge_in in_phase errno heap chain
unfolding judge_in
plain_in in_phase errno heap id chain h =
    rw (h.no_import, h.not_in_use, h.not_denied, h.no_config, h.no_download in_phase, h.valid) refl

plain_first :
    (errno : Errno) (heap : Heap) (id : ℕ) (chain : List ℕ)
    → IsPlain errno (heap id)
    → judge errno heap (id ∷ chain) ≡ judge errno heap chain
unfolding judge
plain_first errno heap id chain h =
    plain_in _ errno heap id chain h
    ∙ ap (λ o. judge_in (is_some o) errno heap chain)
        (skip (λ e. e.in_download) heap id chain h.no_phase)

abbrev pub code : Option (Code × String) → Option Code
code none = none
code (some (c, message)) = some c

same_code :
    (errno : Errno) (heap : Heap) (outer inner : ℕ) (r : Option (List ℕ))
    → IsPlain errno (heap outer)
    → code (classified errno heap outer (prepend outer r)) ≡ code (classified errno heap inner r)
same_code errno heap outer inner none h = refl
same_code errno heap outer inner (some chain) h =
    ap (λ v. some (code_of v)) (plain_first errno heap outer chain h)

-- An exception that says nothing by itself, raised from another one, gets that one's code.
pub wrapping_keeps_code :
    (n fuel : ℕ) (errno : Errno) (heap : Heap) (id : ℕ)
    → IsClosed n heap
    → id < n
    → next_of heap n ≡ some id
    → IsPlain errno (heap n)
    → code (classify_startup_error (suc fuel) errno heap n)
      ≡ code (classify_startup_error fuel errno heap id)
unfolding classify_startup_error walk
wrapping_keeps_code n fuel errno heap id closed below wraps plain =
    let same : walk fuel heap (n ∷ []) (some id) ≡ walk fuel heap [] (some id) =
      same_walk n heap fuel [] (n ∷ []) (some id) closed below (λ i small. ground arith) in
    rw wraps (rw same (same_code errno heap n id (walk fuel heap [] (some id)) plain))
