-- ===== src/Buffer/Tests.antt =====
-- An instance of the theorem on reference counts, and runs.
use shoc.Base.{ℕ, ◌≡◌, refl, none, some, List, [], ◌∷◌}
use shoc.Doca.{DocaError-discrete, success}
use shoc.Error.{ok, enforce_success, enforce_success_as, enforce}
use shoc.Context.Scoped.Conservation.{held}
use shoc.Buffer.{
  no_buffers, from_handle, copy_construct, move_construct, copy_assign, move_assign, clear,
  inc_refcount, dec_refcount, RegionAnswers, region_of, set_data,
}
use shoc.Buffer.Counting.{
  Event, takes, copies, moves, copy_assigns, move_assigns, step, run, run-refcount,
}

-- Two copies of the buffer 6 and one of the buffer 7, which is assigned over; 6 is assigned to itself.
abbrev shuffle : List Event
shuffle =
    takes (some 6)
    ∷ takes (some 7)
    ∷ copies 0
    ∷ move_assigns 0 0
    ∷ copy_assigns 1 0
    ∷ moves 2
    ∷ copies 2
    ∷ []

run-refcount_example : (run shuffle no_buffers).refcount 6 ≡ held 6 (run shuffle no_buffers).objects
run-refcount_example = run-refcount 6 shuffle

three_references : (run shuffle no_buffers).refcount 6 ≡ 3
unfolding run step no_buffers from_handle copy_construct move_construct copy_assign move_assign
    clear inc_refcount dec_refcount
three_references = refl

seven_is_given_back : (run shuffle no_buffers).refcount 7 ≡ 0
unfolding run step no_buffers from_handle copy_construct move_construct copy_assign move_assign
    clear inc_refcount dec_refcount
seven_is_given_back = refl

-- A copy of an empty buffer asks DOCA for a reference to null.
null_is_refused : (run (takes none ∷ copies 0 ∷ []) no_buffers).refused ≡ 1
unfolding run step no_buffers from_handle copy_construct inc_refcount
null_is_refused = refl

abbrev known : ℕ → RegionAnswers
known n = record { get_base = success; get_len = success; region = record { base = n; size = 16 } }

old_region_is_returned :
    set_data (known 64) (known 32) (λ s. success) 8 4
    ≡ ok (record { base = 36; size = 8 }, record { base = 64; size = 16 })
unfolding set_data region_of enforce_success enforce_success_as enforce DocaError-discrete
old_region_is_returned = refl
