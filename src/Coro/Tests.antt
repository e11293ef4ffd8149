-- ===== src/Coro/Tests.antt =====
-- Instances of the theorem on receptables.
use shoc.Base.{ℕ, ◌≡◌, [], ◌∷◌}
use shoc.Error.{ok}
use shoc.Coro.Meeting.{
  finished, sets, resumes, awaits, gives, run, fresh, meeting_delivers, left, right, done,
}

keep : ℕ → ℕ
keep n = n

-- The coroutine starts to wait between the write and the deferred resumption.
meeting_delivers_example :
    (run keep (sets (gives 5) ∷ awaits 3 ∷ resumes ∷ []) fresh).consumer ≡ finished (ok 5)
meeting_delivers_example = meeting_delivers keep (gives 5) 3 (left (right (left done)))
