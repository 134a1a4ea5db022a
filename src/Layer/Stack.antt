-- ===== src/Layer/Stack.antt =====
-- Where UpDown puts a layer in the stack.
use duvuvurkarpogeschel.Prelude.{
  ℕ, zero, suc, ◌+◌, ◌-◌, ◌≤◌, ◌<◌, ◌≡◌, ◌≢◌, refl, sym, ap, ◌∙◌, min, false, List, [], ◌∷◌, ◌==◌,
  ==_iff, ltb, if◌then◌else◌, length, arith, ◌⊎◌, inl, inr, ℕ_discrete,
}
use duvuvurkarpogeschel.Prelude.Int.{pos}
use duvuvurkarpogeschel.Prelude.Distinct.{IsNotIn, IsDistinct, without, IsDistinct-without}
use duvuvurkarpogeschel.Layer.{
  LayerManager, find_index, erase_at, insert_at, move_to, up_down, find_layer, height_of,
  get_height,
}

without_same : (k : ℕ) (xs : List ℕ) → IsNotIn k xs → without k xs ≡ xs
without_same k [] h = refl
without_same k (x ∷ xs) h = ground (arith, h.0, without_same k xs h.1)

erase_at-find_index :
    (stack : List ℕ) (layer : ℕ)
    → IsDistinct stack
    → erase_at stack (find_index stack layer) ≡ without layer stack
unfolding erase_at find_index
erase_at-find_index [] layer h = refl
erase_at-find_index (l ∷ stack) layer h = elim (ℕ_discrete l layer) [
  | yes same ↦ rw (sym same) (ground (arith, without_same l stack h.0))
  | no apart ↦ ground (arith, apart, erase_at-find_index stack layer h.1)
]

find_index_lem :
    (stack : List ℕ) (layer : ℕ)
    → ((find_index stack layer ≡ length stack) × IsNotIn layer stack)
      ⊎ ((find_index stack layer < length stack)
          × (length stack ≡ suc (length (erase_at stack (find_index stack layer)))))
unfolding find_index erase_at
find_index_lem [] layer = inl (refl, tt)
find_index_lem (l ∷ stack) layer = elim (ℕ_discrete l layer) [
  | yes same ↦ ground (arith, same)
  | no apart ↦ ground (arith, apart, find_index_lem stack layer)
]

-- The height that UpDown gives a layer among the others.
abbrev pub new_index : List ℕ → (layer height : ℕ) → ℕ
new_index stack layer height = min height (length (without layer stack))

not_equal : (a b : ℕ) → a ≢ b → (a == b) ≡ false
not_equal a b h = ground (arith, h)

clamp : (size height : ℕ) → (if ltb size height then size else height) ≡ min height size
clamp size height = ground arith

clamp_inner :
    (size others height : ℕ)
    → size ≡ suc others
    → let new_height = if ltb size height then size else height in
      (if new_height == size then new_height - 1 else new_height) ≡ min height others
clamp_inner size others height h = ground (arith, h)

move_to_lem :
    (stack : List ℕ) (layer height : ℕ)
    → IsDistinct stack
    → move_to stack layer height
      ≡ insert_at (without layer stack) (new_index stack layer height) layer
unfolding move_to
move_to_lem stack layer height h = elim (find_index_lem stack layer) [
  | inl (last, absent) ↦
      let same = sym (without_same layer stack absent) in
      rw ((==_iff (find_index stack layer) (length stack)).1 last) (
        ap (λ k. insert_at stack k layer) (clamp (length stack) height)
        ∙ (λ i. insert_at (same i) (min height (length (same i))) layer))
  | inr (inner, shorter) ↦
      let same = erase_at-find_index stack layer h in
      let others = erase_at stack (find_index stack layer) in
      rw (not_equal (find_index stack layer) (length stack) (λ e. omega (arith, inner, e))) (
        ap (λ k. insert_at others k layer)
          (clamp_inner (length stack) (length others) height shorter)
        ∙ (λ i. insert_at (same i) (min height (length (same i))) layer))
]

module _ (id : ℕ) where
  insert_at-IsNotIn :
      (l k : ℕ) (others : List ℕ) → id ≢ l → IsNotIn l others → IsNotIn l (insert_at others k id)
  unfolding insert_at
  insert_at-IsNotIn l zero others ne h = (ne, h)
  insert_at-IsNotIn l (suc k) [] ne h = (ne, tt)
  insert_at-IsNotIn l (suc k) (x ∷ others) ne h = (h.0, insert_at-IsNotIn l k others ne h.1)

  insert_at-IsDistinct :
      (k : ℕ) (others : List ℕ)
      → IsDistinct others
      → IsNotIn id others
      → IsDistinct (insert_at others k id)
  unfolding insert_at
  insert_at-IsDistinct zero others h away = (away, h)
  insert_at-IsDistinct (suc k) [] h away = (tt, tt)
  insert_at-IsDistinct (suc k) (l ∷ others) h away = (
    insert_at-IsNotIn l k others (λ e. away.0 (sym e)) h.0,
    insert_at-IsDistinct k others h.1 away.1,
  )

  pub height_of-insert_at :
      (k : ℕ) (others : List ℕ) (h : ℕ)
      → k ≤ length others
      → IsNotIn id others
      → height_of (insert_at others k id) h id ≡ pos (h + k)
  unfolding insert_at
  height_of-insert_at zero others h le away =
      let here : h ≡ h + 0 = omega arith in ground (arith, here)
  height_of-insert_at (suc k) [] h le away = absurd (omega (arith, le))
  height_of-insert_at (suc k) (l ∷ others) h le away =
      let further : h + 1 + k ≡ h + suc k = omega arith in
      ground (
        arith,
        away.0,
        height_of-insert_at k others (h + 1) (omega (arith, le)) away.1 ∙ ap pos further,
      )

  pub without-insert_at :
      (k : ℕ) (others : List ℕ) → IsNotIn id others → without id (insert_at others k id) ≡ others
  unfolding insert_at
  without-insert_at zero others away = ground (arith, without_same id others away)
  without-insert_at (suc k) [] away = ground arith
  without-insert_at (suc k) (l ∷ others) away =
      ground (arith, away.0, without-insert_at k others away.1)

pub without-IsNotIn : (k : ℕ) (xs : List ℕ) → IsNotIn k (without k xs)
without-IsNotIn k [] = tt
without-IsNotIn k (x ∷ xs) = ground (arith, without-IsNotIn k xs)

pub up_down_stack :
    (m : LayerManager) (id height : ℕ)
    → find_layer m id ≡ id
    → IsDistinct m.layer_stack
    → (up_down m id (pos height)).layer_stack
      ≡ insert_at (without id m.layer_stack) (new_index m.layer_stack id height) id
unfolding up_down
up_down_stack m id height known distinct =
    ap (λ l. move_to m.layer_stack l height) known ∙ move_to_lem m.layer_stack id height distinct

-- On a stack of distinct layers, UpDown to a height that is not negative puts the layer at that
-- height, or on top when the height is too great, keeps the others in their order, and the layers
-- of the stack stay distinct.
pub up_down_lem :
    (m : LayerManager) (id height : ℕ)
    → find_layer m id ≡ id
    → IsDistinct m.layer_stack
    → let after = up_down m id (pos height) in
      let others = without id m.layer_stack in
      (get_height after id ≡ pos (min height (length others)))
      × (without id after.layer_stack ≡ others)
      × IsDistinct after.layer_stack
unfolding up_down get_height
up_down_lem m id height known distinct =
    let others = without id m.layer_stack in
    let k = new_index m.layer_stack id height in
    let away = without-IsNotIn id m.layer_stack in
    let moved = up_down_stack m id height known distinct in
    let from_zero : 0 + k ≡ k = omega arith in
    (
      ap (λ s. height_of s 0 id) moved
          ∙ height_of-insert_at id k others 0 (omega arith) away
          ∙ ap pos from_zero,
      ap (without id) moved ∙ without-insert_at id k others away,
      rw moved
          (insert_at-IsDistinct id k others (IsDistinct-without id m.layer_stack distinct) away),
    )
