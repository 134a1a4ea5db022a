-- ===== src/Syscall/Files/Table.antt =====
-- The descriptors that OpenFile gives out.
use duvuvurkarpogeschel.Prelude.{
  ℕ, zero, suc, ◌+◌, ◌<◌, ◌≡◌, ◌≢◌, refl, sym, ap, ◌∙◌, true, Option, none, some, List, [], ◌∷◌,
  ◌++◌, ltb, if◌then◌else◌, length, set, arith, Bool-cases, inl, inr, ◌==◌,
}
use mathlib.Core.Option.{none-ne-some}
use duvuvurkarpogeschel.Prelude.Int.{pos}
use duvuvurkarpogeschel.Syscall.Files.{next_free, allocate_fd, open_at, lookup_from, lookup_fd}

module _ {F : Type 0} where
  -- The descriptor by recursion, as its number.
  slot : List (Option F) → ℕ
  slot [] = 0
  slot (none ∷ files) = 0
  slot (some f ∷ files) = suc (slot files)

  next_free-slot : (i : ℕ) (files : List (Option F)) → next_free i files ≡ i + slot files
  unfolding slot
  next_free-slot i [] = omega arith
  next_free-slot i (none ∷ files) = omega arith
  next_free-slot i (some f ∷ files) = next_free-slot (i + 1) files ∙ omega arith

  -- The table with a descriptor in its first free slot.
  fill : List (Option F) → F → List (Option F)
  fill [] f = some f ∷ []
  fill (none ∷ files) f = some f ∷ files
  fill (some g ∷ files) f = some g ∷ fill files f

  grown : List (Option F) → List (Option F)
  grown files = if ltb (slot files) (length files) then files else files ++ none ∷ []

  set-grown :
      (files : List (Option F)) (f : F) → set (grown files) (slot files) (some f) ≡ fill files f
  unfolding grown slot fill
  set-grown [] f = refl
  set-grown (none ∷ files) f =
      let inside : ltb 0 (suc (length files)) ≡ true = ground arith in rw inside refl
  set-grown (some g ∷ files) f =
      let shift : ltb (suc (slot files)) (suc (length files)) ≡ ltb (slot files) (length files) =
        ground arith in
      let rest = set-grown files f in
      elim (Bool-cases (ltb (slot files) (length files))) [
        | inl e ↦
            rw (shift, e)
              (ap (λ l. some g ∷ l)
                (ap (λ b. set (if b then files else files ++ none ∷ []) (slot files) (some f))
                    (sym e)
                  ∙ rest))
        | inr e ↦
            rw (shift, e)
              (ap (λ l. some g ∷ l)
                (ap (λ b. set (if b then files else files ++ none ∷ []) (slot files) (some f))
                    (sym e)
                  ∙ rest))
      ]

  opened : (files : List (Option F)) (f : F) → open_at files f ≡ (slot files, fill files f)
  unfolding open_at allocate_fd grown
  opened files f =
      let same : next_free 0 files ≡ slot files = next_free-slot 0 files ∙ omega arith in
      let filled = set-grown files f in
      elim (Bool-cases (ltb (slot files) (length files))) [
        | inl e ↦
            rw (same, e)
              (ap (λ l. (slot files, l))
                (ap (λ b. set (if b then files else files ++ none ∷ []) (slot files) (some f))
                    (sym e)
                  ∙ filled))
        | inr e ↦
            rw (same, e)
              (ap (λ l. (slot files, l))
                (ap (λ b. set (if b then files else files ++ none ∷ []) (slot files) (some f))
                    (sym e)
                  ∙ filled))
      ]

  slot-free : (files : List (Option F)) → lookup_from files (slot files) ≡ none
  unfolding slot lookup_from
  slot-free [] = refl
  slot-free (none ∷ files) = refl
  slot-free (some g ∷ files) = slot-free files

  slot-least : (files : List (Option F)) (i : ℕ) → i < slot files → lookup_from files i ≢ none
  unfolding slot lookup_from
  slot-least [] i h e = absurd (omega arith)
  slot-least (none ∷ files) i h e = absurd (omega arith)
  slot-least (some g ∷ files) zero h e = absurd (none-ne-some g (sym e))
  slot-least (some g ∷ files) (suc i) h e = slot-least files i (omega arith) e

  fill_self : (files : List (Option F)) (f : F) → lookup_from (fill files f) (slot files) ≡ some f
  unfolding slot lookup_from fill
  fill_self [] f = refl
  fill_self (none ∷ files) f = refl
  fill_self (some g ∷ files) f = fill_self files f

  fill_ne :
      (files : List (Option F)) (f : F) (i : ℕ)
      → i ≢ slot files
      → lookup_from (fill files f) i ≡ lookup_from files i
  unfolding slot lookup_from fill
  fill_ne [] f zero h = absurd (h refl)
  fill_ne [] f (suc i) h = refl
  fill_ne (none ∷ files) f zero h = absurd (h refl)
  fill_ne (none ∷ files) f (suc i) h = refl
  fill_ne (some g ∷ files) f zero h = refl
  fill_ne (some g ∷ files) f (suc i) h = fill_ne files f i (λ e. h (ap suc e))

  fill-other :
      (files : List (Option F)) (f : F) (i : ℕ)
      → lookup_from (fill files f) i ≡ (if i == slot files then some f else lookup_from files i)
  fill-other files f i = elim (Bool-cases (i == slot files)) [
    | inl e ↦
        let same : i ≡ slot files = ground (arith, e) in
        rw e (ap (lookup_from (fill files f)) same ∙ fill_self files f)
    | inr e ↦ rw e (fill_ne files f i (ground (arith, e)))
  ]

  -- Opening gives out the least number that has no descriptor; it has the new one then, and all
  -- other numbers have what they had.
  pub open_at_lem :
      (files : List (Option F)) (f : F) (other : ℕ)
      → let fd = (open_at files f).0 in
        (lookup_fd files (pos fd) ≡ none)
        × ((i : ℕ) → i < fd → lookup_fd files (pos i) ≢ none)
        × (lookup_fd (open_at files f).1 (pos fd) ≡ some f)
        × (lookup_fd (open_at files f).1 (pos other)
            ≡ (if other == fd then some f else lookup_fd files (pos other)))
  unfolding lookup_fd
  open_at_lem files f other =
      rw (opened files f)
        (slot-free files, slot-least files, fill_self files f, fill-other files f other)
