-- ===== src/Comch/Resolve.antt =====
-- How callbacks find the object that an event is for: `server::resolve_server`,
-- `server::resolve_connection` (shoc/comch/server.cpp) and `client::resolve` (shoc/comch/client.cpp).
use shoc.Base.{
  ℕ, ◌≡◌, refl, ◌⊎◌, inl, inr, Bool, true, false, Option, none, some, List, contains, if◌then◌else◌,
  Bool-cases,
}
use shoc.Doca.{DocaError, is_success}
use shoc.Error.{Outcome, ok, terminates}

-- What was found, and whether an error was logged.
pub record Resolved : Type 0 where
  pub object : Option ℕ
  pub logged : Bool

-- `resolve_server` and `client::resolve`: the handle that DOCA gives for the connection, which may be
-- null, and its answer to the question for the user data.
unfoldable pub resolve : Option ℕ → DocaError → ℕ → Resolved
resolve none err user_data = record { object = none; logged = false }
resolve (some handle) err user_data =
    if is_success err
    then record { object = some user_data; logged = false }
    else record { object = none; logged = true }

-- The search in `open_connections_`, once the server is known; the assertion ends the program.
find_connection : Option ℕ → ℕ → List ℕ → Outcome (Option ℕ)
find_connection none con open_connections = terminates
find_connection (some server) con open_connections =
    ok (if contains con open_connections then some con else none)

unfoldable pub resolve_connection : Option ℕ → DocaError → ℕ → ℕ → List ℕ → Outcome (Option ℕ)
unfolding resolve find_connection
resolve_connection handle err user_data con open_connections =
    find_connection (resolve handle err user_data).object con open_connections

resolve-cases :
    (server : ℕ) (err : DocaError) (user_data con : ℕ) (open_connections : List ℕ)
    → ((is_success err ≡ true)
        × (resolve_connection (some server) err user_data con open_connections
            ≡ ok (if contains con open_connections then some con else none)))
      ⊎ ((is_success err ≡ false)
          × (resolve_connection (some server) err user_data con open_connections ≡ terminates))
unfolding resolve_connection resolve find_connection
resolve-cases server err user_data con open_connections = elim (Bool-cases (is_success err)) [
  | inl e ↦ inl (e, rw e refl)
  | inr e ↦ inr (e, rw e refl)
]
