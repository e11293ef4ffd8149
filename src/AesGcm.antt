-- ===== src/AesGcm.antt =====
-- AES-GCM contexts and their keys (shoc/aes_gcm.hpp, shoc/aes_gcm.cpp): a context stops when its keys
-- are destroyed. One context with any number of key objects, which are known by their position.
pub mod Counting
pub mod Leak
mod Tests
use shoc.Base.{
  ℕ, zero, suc, ◌-◌, ◌/◌, Bool, true, false, ◌&&◌, Option, none, some, List, [], ◌∷◌, ◌++◌, ltb,
  ◌==◌, if◌then◌else◌, length, get_elem?, set,
}
use shoc.Doca.{DocaError, invalid_value}
use shoc.Error.{
  Outcome, ok, throws, terminates, undefined, doca_exception, ◌>>=◌, ◌>>◌, enforce, enforce_success,
}
use shoc.Context.Registry.{StopAnswer, at_once, in_time, refused}

pub data KeyType : Type 0 where
  aes_gcm_key_128 aes_gcm_key_256 : KeyType
  other_key_type : ℕ → KeyType

unfoldable pub expected_key_size : KeyType → Outcome ℕ
expected_key_size aes_gcm_key_128 = ok (128 / 8)
expected_key_size aes_gcm_key_256 = ok (256 / 8)
expected_key_size (other_key_type n) = throws (doca_exception invalid_value)

-- `aes_gcm_key`: the handle of DOCA, and whether `parent_` points to the context.
pub record Key : Type 0 where
  pub handle : Option ℕ
  pub parent : Bool

abbrev pub no_key : Key
no_key = record { handle = none; parent = false }

pub record Context : Type 0 where
  pub loaded_keys : ℕ  -- int
  pub stop_requested : Bool
  pub has_handle : Bool
  pub keys : List Key
  -- the keys of DOCA that were destroyed, and whether the context was told
  pub destroyed : List (ℕ × Bool)
  -- `loaded_keys_` at the calls of `doca_ctx_stop`, and the failed assertions
  pub stops : List ℕ
  pub failed_assertions : ℕ

unfoldable pub new_context : Context
new_context = record {
  loaded_keys = 0;
  stop_requested = false;
  has_handle = true;
  keys = [];
  destroyed = [];
  stops = [];
  failed_assertions = 0;
}

-- The key of `load_key`: the size must be the type's, and DOCA's answer a success.
unfoldable pub create_key : ℕ → KeyType → DocaError → ℕ → Outcome Key
unfolding expected_key_size enforce enforce_success
create_key key_size key_type answer handle = do
  size ← expected_key_size key_type
  enforce (size == key_size) invalid_value
  enforce_success answer
  ok (record { handle = some handle; parent = true })

abbrev keep_key : Outcome Key → Context → Context
keep_key (ok key) c = record c { loaded_keys = suc c.loaded_keys; keys = c.keys ++ key ∷ [] }
keep_key _ c = c

-- `aes_gcm_context::load_key`; what it throws leaves the context as it was.
unfoldable pub load_key : ℕ → KeyType → DocaError → ℕ → Context → Context
unfolding create_key
load_key key_size key_type answer handle c = keep_key (create_key key_size key_type answer handle) c

-- What `doca_ctx_stop` does to the context before it returns.
stop_answered : StopAnswer → Context → Context
stop_answered at_once c = record c { has_handle = false }
stop_answered in_time c = c
stop_answered (refused e) c = c

-- `aes_gcm_context::do_stop_if_able`
unfoldable pub do_stop_if_able : StopAnswer → Context → Context
unfolding stop_answered
do_stop_if_able answer c =
    if ltb 0 c.loaded_keys
    then c
    else (if c.has_handle
        then stop_answered answer (record c { stops = c.stops ++ c.loaded_keys ∷ [] })
        else c)

-- `aes_gcm_context::signal_key_destroyed`. The assertion `loaded_keys_ > 0` ends the program where it
-- fails, so that the number that is left then does not matter.
unfoldable pub signal_key_destroyed : StopAnswer → Context → Context
unfolding do_stop_if_able
signal_key_destroyed answer c =
    let c' : Context = record c {
      loaded_keys = c.loaded_keys - 1;
      failed_assertions =
          if ltb 0 c.loaded_keys then c.failed_assertions else suc c.failed_assertions;
    } in
    if c.stop_requested then do_stop_if_able answer c' else c'

-- `aes_gcm_context::stop`
unfoldable pub stop : StopAnswer → Context → Context
unfolding do_stop_if_able
stop answer c = do_stop_if_able answer (record c { stop_requested = true })

abbrev pub at : ℕ → List Key → Key
at i [] = no_key
at zero (k ∷ l) = k
at (suc i) (k ∷ l) = at i l

-- `aes_gcm_key::clear` on the key at `i`, with the handle that it holds. The assertion is that
-- `parent_` is not null.
clear_handle : StopAnswer → ℕ → Key → Option ℕ → Context → Context
unfolding signal_key_destroyed
clear_handle answer i key none c = c
clear_handle answer i key (some h) c = signal_key_destroyed answer (record c {
  keys = set c.keys i no_key;
  destroyed = c.destroyed ++ (h, true) ∷ [];
  failed_assertions = if key.parent then c.failed_assertions else suc c.failed_assertions;
})

unfoldable pub clear : StopAnswer → ℕ → Context → Context
unfolding clear_handle
clear answer i c = clear_handle answer i (at i c.keys) (at i c.keys).handle c

-- The move assignment of a `unique_ptr` destroys what the target held.
abbrev drop_handle : Option ℕ → List (ℕ × Bool) → List (ℕ × Bool)
drop_handle none l = l
drop_handle (some h) l = l ++ (h, false) ∷ []

-- `aes_gcm_key::operator=(aes_gcm_key &&)` of the key at `i` from the key at `j`. From itself it
-- changes nothing: the handle is released and set again, and so is `parent_`.
unfoldable pub move_assign : ℕ → ℕ → Context → Context
move_assign i j c =
    if ltb i (length c.keys) && ltb j (length c.keys)
    then (if i == j then c else record c {
      keys = set (set c.keys i (at j c.keys)) j no_key;
      destroyed = drop_handle (at i c.keys).handle c.destroyed;
    })
    else c

-- `aes_gcm_key::aes_gcm_key(aes_gcm_key &&)`: a new key that is assigned to.
unfoldable pub move_construct : ℕ → Context → Context
move_construct j c = record c { keys = set c.keys j no_key ++ at j c.keys ∷ [] }
