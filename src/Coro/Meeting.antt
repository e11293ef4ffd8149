-- ===== src/Coro/Meeting.antt =====
-- The meeting of a completion callback and a waiting coroutine at a receptable: the callback writes
-- its result and resumes, at once or later (`boost::asio::post`), and the coroutine runs `co_await`.
use shoc.Base.{ℕ, ◌≡◌, refl, Bool, true, false, Option, none, some, List, [], ◌∷◌, ◌++◌}
use shoc.Error.{Exception, Outcome, ok, throws, terminates, undefined}
use shoc.Coro.{
  Receptable, create_empty, set_value, set_exception, resume, await_ready, await_suspend,
  await_resume,
}

-- What a callback writes into the receptable.
pub data Completion {ℓ} (T : Type ℓ) : Type ℓ where
  gives : T → Completion T
  raises : Exception → Completion T

pub data Consumer {ℓ} (T : Type ℓ) : Type ℓ where
  not_started : Consumer T
  suspended : ℕ → Consumer T
  finished : Outcome T → Consumer T

pub record Meeting {ℓ} (T : Type ℓ) : Type ℓ where
  pub dest : Receptable T
  pub consumer : Consumer T
  pub resumptions : List ℕ

pub data Step {ℓ} (T : Type ℓ) : Type ℓ where
  sets : Completion T → Step T
  resumes : Step T
  awaits : ℕ → Step T

-- The ways in which two sequences of steps can interleave.
pub data Shuffle {ℓ} {A : Type ℓ} : List A → List A → List A → Type ℓ where
  done : Shuffle [] [] []
  left : {x : A} {xs ys zs : List A} → Shuffle xs ys zs → Shuffle (x ∷ xs) ys (x ∷ zs)
  right : {y : A} {xs ys zs : List A} → Shuffle xs ys zs → Shuffle xs (y ∷ ys) (y ∷ zs)

module _ {ℓ} {T : Type ℓ} where
  unfoldable pub write : Completion T → Receptable T → Receptable T
  unfolding set_value set_exception
  write (gives v) r = set_value v r
  write (raises e) r = set_exception e r

  abbrev pub result : Completion T → Outcome T
  result (gives v) = ok v
  result (raises e) = throws e

  -- The callback only writes its result.
  unfoldable pub report : Completion T → Meeting T → Meeting T
  unfolding write
  report c m = record m { dest = write c m.dest }

  pub fresh : Meeting T
  unfolding create_empty
  fresh = record { dest = create_empty; consumer = not_started; resumptions = [] }

module _ {ℓ} {T : Type ℓ} (moved : T → T) where
  -- A resumed coroutine goes on with `await_resume`. To resume one that does not wait is undefined.
  go_on : ℕ → Consumer T → Meeting T → Meeting T
  unfolding await_resume
  go_on h (suspended k) m = record m {
    consumer = finished (await_resume moved (some m.dest)).0;
    resumptions = m.resumptions ++ h ∷ [];
  }
  go_on h _ m = record m { consumer = finished undefined }

  suspend : ℕ → Outcome (Receptable T) → Meeting T → Meeting T
  suspend h (ok r) m = record m { dest = r; consumer = suspended h }
  suspend h (throws e) m = record m { consumer = finished (throws e) }
  suspend h terminates m = record m { consumer = finished terminates }
  suspend h undefined m = record m { consumer = finished undefined }

  co_await : ℕ → Outcome Bool → Meeting T → Meeting T
  unfolding suspend await_suspend await_resume
  co_await h (ok true) m = record m { consumer = finished (await_resume moved (some m.dest)).0 }
  co_await h (ok false) m = suspend h (await_suspend h (some m.dest)) m
  co_await h (throws e) m = record m { consumer = finished (throws e) }
  co_await h terminates m = record m { consumer = finished terminates }
  co_await h undefined m = record m { consumer = finished undefined }

  wake : Option ℕ → Meeting T → Meeting T
  unfolding go_on
  wake none m = m
  wake (some h) m = go_on h m.consumer m

  step : Step T → Meeting T → Meeting T
  unfolding report wake co_await await_ready resume
  step (sets c) m = report c m
  step resumes m = wake (resume m.dest) m
  step (awaits h) m = co_await h (await_ready (some m.dest)) m

  pub run : List (Step T) → Meeting T → Meeting T
  unfolding step
  run [] m = m
  run (s ∷ ss) m = run ss (step s m)

  -- Whichever of the two comes first, and also when the coroutine starts to wait between the
  -- callback's write and a deferred resumption, the coroutine finishes its `co_await` with exactly
  -- what the callback wrote: it never hangs, is never refused and never resumed twice.
  pub meeting_delivers :
      (c : Completion T) (h : ℕ) {s : List (Step T)}
      → Shuffle (sets c ∷ resumes ∷ []) (awaits h ∷ []) s
      → (run s fresh).consumer ≡ finished (result c)
  unfolding run fresh
  meeting_delivers (gives v) h (left (left (right done))) = refl
  meeting_delivers (gives v) h (left (right (left done))) = refl
  meeting_delivers (gives v) h (right (left (left done))) = refl
  meeting_delivers (raises e) h (left (left (right done))) = refl
  meeting_delivers (raises e) h (left (right (left done))) = refl
  meeting_delivers (raises e) h (right (left (left done))) = refl
