-- ===== src/Buffer.antt =====
-- Buffers (shoc/buffer.hpp, shoc/buffer.cpp) and where they come from (shoc/buffer_inventory.cpp,
-- shoc/buffer_pool.cpp). A buffer object is the handle that it holds; DOCA counts the references to
-- each handle.
pub mod Counting
mod Tests
use shoc.Base.{
  ℕ, zero, suc, ◌+◌, ◌-◌, ◌&&◌, Bool, true, false, Option, none, some, List, [], ◌∷◌, ◌++◌, ltb,
  if◌then◌else◌, length, set,
}
use shoc.Doca.{DocaError}
use shoc.Error.{Outcome, ok, throws, terminates, undefined, ◌>>=◌, ◌>>◌, enforce_success}
use shoc.AccepterQueues.{update}
use shoc.Context.Scoped.Conservation.{at}

pub record Buffers : Type 0 where
  -- the handles of the buffer objects, by number
  pub objects : List (Option ℕ)
  -- DOCA's reference counts, by handle, and the calls on a null handle, which DOCA refuses
  pub refcount : ℕ → ℕ
  pub refused : ℕ

unfoldable pub no_buffers : Buffers
no_buffers = record { objects = []; refcount = λ _. 0; refused = 0 }

-- `doca_buf_inc_refcount`
unfoldable pub inc_refcount : Option ℕ → Buffers → Buffers
inc_refcount none s = record s { refused = suc s.refused }
inc_refcount (some h) s = record s { refcount = update s.refcount h (suc (s.refcount h)) }

-- `if(handle_ != nullptr) { doca_buf_dec_refcount(handle_, nullptr); }`
unfoldable pub dec_refcount : Option ℕ → Buffers → Buffers
dec_refcount none s = s
dec_refcount (some h) s = record s { refcount = update s.refcount h (s.refcount h - 1) }

-- `buffer::buffer(doca_buf *)`, for a handle that DOCA gives out with one reference, or for null.
unfoldable pub from_handle : Option ℕ → Buffers → Buffers
from_handle none s = record s { objects = s.objects ++ none ∷ [] }
from_handle (some h) s = record s {
  objects = s.objects ++ some h ∷ [];
  refcount = update s.refcount h (suc (s.refcount h));
}

-- `buffer::buffer(buffer const &)`
unfoldable pub copy_construct : ℕ → Buffers → Buffers
unfolding inc_refcount
copy_construct j s =
    inc_refcount (at j s.objects) (record s { objects = s.objects ++ at j s.objects ∷ [] })

-- `buffer::buffer(buffer &&)`
unfoldable pub move_construct : ℕ → Buffers → Buffers
move_construct j s = record s { objects = set s.objects j none ++ at j s.objects ∷ [] }

-- `buffer::operator=(buffer const &)`: a copy is made, swapped and destroyed.
unfoldable pub copy_assign : ℕ → ℕ → Buffers → Buffers
unfolding inc_refcount dec_refcount
copy_assign i j s =
    let copied : Buffers = inc_refcount (at j s.objects) s in
    dec_refcount (at i s.objects) (record copied { objects = set s.objects i (at j s.objects) })

-- `buffer::operator=(buffer &&)`: the other's handle is moved out, swapped, and the old one destroyed.
unfoldable pub move_assign : ℕ → ℕ → Buffers → Buffers
unfolding dec_refcount
move_assign i j s =
    let left = set s.objects j none in
    dec_refcount (at i left) (record s { objects = set left i (at j s.objects) })

-- `buffer::clear`; the destructor does the same.
unfoldable pub clear : ℕ → Buffers → Buffers
unfolding dec_refcount
clear i s = dec_refcount (at i s.objects) (record s { objects = set s.objects i none })

pub record Span : Type 0 where
  pub base : ℕ
  pub size : ℕ

-- The two questions of `data` and of `memory`, with what DOCA answers and writes.
pub record RegionAnswers : Type 0 where
  pub get_base : DocaError
  pub get_len : DocaError
  pub region : Span

-- `buffer::data` and `buffer::memory`
unfoldable pub region_of : RegionAnswers → Outcome Span
unfolding enforce_success
region_of a = do enforce_success a.get_base; enforce_success a.get_len; ok a.region

-- `buffer::set_data`: the region that DOCA is given, and the old one, which is returned.
unfoldable pub set_data :
    RegionAnswers → RegionAnswers → (Span → DocaError) → ℕ → ℕ → Outcome (Span × Span)
unfolding region_of enforce_success
set_data data_answers memory_answers doca_set data_len data_offset = do
  old_data ← region_of data_answers
  mem ← region_of memory_answers
  let new_data : Span = record { base = mem.base + data_offset; size = data_len }
  enforce_success (doca_set new_data)
  ok (new_data, old_data)

-- A handle from an inventory (`buf_get_by_args`, `buf_get_by_addr`, `buf_get_by_data`, `buf_dup`) or a
-- pool (`allocate_buffer`).
unfoldable pub buf_get : DocaError → ℕ → Outcome (Option ℕ)
unfolding enforce_success
buf_get answer dest = do enforce_success answer; ok (some dest)

-- `get_num_elements`, `get_num_free_elements`
unfoldable pub num_elements : DocaError → ℕ → Outcome ℕ
unfolding enforce_success
num_elements answer dest = do enforce_success answer; ok dest

-- The constructor of an inventory: created, told its user data, and started.
unfoldable pub new_inventory : DocaError → DocaError → DocaError → ℕ → Outcome ℕ
unfolding enforce_success
new_inventory created user_data started inv = do
  enforce_success created
  enforce_success user_data
  enforce_success started
  ok inv

-- The constructor of a pool, once the memory is mapped.
unfoldable pub new_pool : DocaError → DocaError → DocaError → ℕ → Outcome ℕ
unfolding enforce_success
new_pool created alignment started pool = do
  enforce_success created
  enforce_success alignment
  enforce_success started
  ok pool
