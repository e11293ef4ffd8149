-- ===== src/Flow/Actions.antt =====
-- The actions of a flow pipe (shoc/flow.hpp, shoc/flow.cpp).
use shoc.Base.{
  map, ap, ℕ, ◌%◌, ◌^◌, ◌≡◌, refl, Bool, true, Option, none, some, List, [], ◌∷◌, ◌==◌, ltb, arith,
  length,
}
use shoc.Doca.{DocaError, invalid_value}
use shoc.Error.{Outcome, ok, ◌>>◌, enforce, enforce_success}
use shoc.Flow.{Call, pipe_cfg_set_actions, unpack_single}

-- `extended_actions`: actions and masks are addresses, and `D` is `doca_flow_action_desc`.
pub record ExtendedActions (D : Type 0) : Type 0 where
  pub actions : ℕ
  pub mask : Option ℕ
  pub descs : List D

-- `doca_flow_action_descs`: the number of descriptions, and the array.
pub record ActionDescs (D : Type 0) : Type 0 where
  pub nb_action_desc : ℕ  -- uint8
  pub desc_array : List D

module _ {D : Type 0} where
  -- The constructor. The member is initialised by a move from the parameter `descs`, which is empty
  -- then, and the check reads the parameter.
  unfoldable pub extended_actions : ℕ → Option ℕ → List D → Outcome (ExtendedActions D)
  unfolding enforce
  extended_actions actions mask descs =
      let descs_ = descs in
      let moved_from : List D = [] in
      do
        enforce (ltb (length moved_from) 256) invalid_value
        ok (record { actions = actions; mask = mask; descs = descs_ })

  -- `descs_ptr`, with the cast to `uint8_t`
  unfoldable pub descs_ptr : ExtendedActions D → ActionDescs D
  descs_ptr e = record { nb_action_desc = length e.descs % 2 ^ 8; desc_array = e.descs }

-- A size that is given agrees with the number of actions.
abbrev agrees : Option ℕ → ℕ → Bool
agrees none n = true
agrees (some m) n = m == n

abbrev size_of : Option (ℕ × ℕ) → Option ℕ
size_of none = none
size_of (some p) = some p.1

abbrev address_of : Option (ℕ × ℕ) → Option ℕ
address_of none = none
address_of (some p) = some p.0

-- `pipe_cfg::set_actions` of three arrays, by address and size; masks and descriptions are optional.
unfoldable pub set_actions : ℕ → ℕ → Option (ℕ × ℕ) → Option (ℕ × ℕ) → DocaError → Outcome Call
unfolding enforce enforce_success
set_actions actions size masks descs answer = do
  enforce (agrees (size_of masks) size) invalid_value
  enforce (agrees (size_of descs) size) invalid_value
  enforce_success answer
  ok (record {
    function = pipe_cfg_set_actions;
    args =
        actions ∷ unpack_single (address_of masks) ∷ unpack_single (address_of descs) ∷ size ∷ [];
  })

-- The vectors of pointers that `set_actions` of extended actions fills, one entry for each of them.
pub record IndexVectors (D : Type 0) : Type 0 where
  pub actions_index : List ℕ
  pub masks_index : List (Option ℕ)
  pub descs_index : List (ActionDescs D)

module _ {D : Type 0} where
  unfoldable pub index_vectors : List (ExtendedActions D) → IndexVectors D
  unfolding descs_ptr
  index_vectors actions = record {
    actions_index = map (λ e. e.actions) actions;
    masks_index = map (λ e. e.mask) actions;
    descs_index = map (λ e. descs_ptr e) actions;
  }

  -- `pipe_cfg::set_actions` of extended actions, with the vectors at three addresses.
  unfoldable pub set_extended_actions :
      ℕ → ℕ → ℕ → DocaError → List (ExtendedActions D) → Outcome Call
  unfolding index_vectors set_actions
  set_extended_actions actions_at masks_at descs_at answer actions =
      let v = index_vectors actions in
      set_actions actions_at (length v.actions_index) (some (masks_at, length v.masks_index))
        (some (descs_at, length v.descs_index)) answer

  length-map :
      {B : Type 0} (f : ExtendedActions D → B) (l : List (ExtendedActions D))
      → length (map f l) ≡ length l
  length-map f [] = refl
  length-map f (x ∷ l) = ap ℕ.suc (length-map f l)

  -- The sizes always agree: only DOCA can refuse extended actions.
  pub set_extended_actions-agrees :
      (actions_at masks_at descs_at : ℕ) (answer : DocaError) (actions : List (ExtendedActions D))
      → set_extended_actions actions_at masks_at descs_at answer actions ≡ (
          enforce_success answer
          >> ok (record {
            function = pipe_cfg_set_actions;
            args = actions_at ∷ masks_at ∷ descs_at ∷ length actions ∷ [];
          }))
  unfolding set_extended_actions set_actions index_vectors enforce
  set_extended_actions-agrees actions_at masks_at descs_at answer actions =
      let n = length actions in
      let same : (n == n) ≡ true = ground arith in
      rw
        (
          length-map (λ e. e.mask) actions,
          length-map (λ e. e.actions) actions,
          length-map (λ e. descs_ptr e) actions,
          same,
        )
        refl
