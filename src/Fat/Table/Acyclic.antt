-- ===== src/Fat/Table/Acyclic.antt =====
-- A chain that ends visits no cluster twice, so that the table's length bounds its walk.
use duvuvurkarpogeschel.Prelude.{
  ℕ, ◌<◌, ◌≡◌, ◌≢◌, refl, sym, ap, ◌∙◌, List, [], ◌∷◌, length, All, arith,
}
use mathlib.Core.Path.{subst}
use duvuvurkarpogeschel.Prelude.Distinct.{IsNotIn, IsDistinct, length-IsDistinct}
use duvuvurkarpogeschel.Fat.Table.Chain.{IsChain}

-- The table determines the chain.
IsChain-unique :
    (fat : List ℕ) (c : ℕ) (cs ds : List ℕ) → IsChain fat c cs → IsChain fat c ds → cs ≡ ds
IsChain-unique fat c [] [] h k = refl
IsChain-unique fat c [] (d ∷ ds) h k = ground (arith, h.2, k.2)
IsChain-unique fat c (d ∷ cs) [] h k = ground (arith, h.2, k.2)
IsChain-unique fat c (d ∷ cs) (e ∷ ds) h k =
    let next : e ≡ d = sym k.3 ∙ h.3 in
    rw next
      (ap (λ xs. d ∷ xs) (IsChain-unique fat d cs ds h.4 (subst (λ x. IsChain fat x ds) next k.4)))

differs :
    (fat : List ℕ) (c : ℕ) (cs : List ℕ) (d : ℕ) (ds : List ℕ)
    → IsChain fat c cs
    → IsChain fat d ds
    → length ds < length cs
    → d ≢ c
differs fat c cs d ds h k shorter = λ same.
    let equal = IsChain-unique fat c cs ds h (subst (λ x. IsChain fat x ds) same k) in
    omega (arith, shorter, ap length equal)

later-differs :
    (fat : List ℕ) (c : ℕ) (cs : List ℕ) (d : ℕ) (ds : List ℕ)
    → IsChain fat c cs
    → IsChain fat d ds
    → length ds < length cs
    → IsNotIn c (d ∷ ds)
later-differs fat c cs d [] h k shorter = (differs fat c cs d [] h k shorter, tt)
later-differs fat c cs d (e ∷ ds) h k shorter = (
  differs fat c cs d (e ∷ ds) h k shorter,
  later-differs fat c cs e ds h k.4 (omega (arith, shorter)),
)

IsChain-IsDistinct : (fat : List ℕ) (c : ℕ) (cs : List ℕ) → IsChain fat c cs → IsDistinct (c ∷ cs)
IsChain-IsDistinct fat c [] h = (tt, tt)
IsChain-IsDistinct fat c (d ∷ ds) h =
    (later-differs fat c (d ∷ ds) d ds h h.4 (omega arith), IsChain-IsDistinct fat d ds h.4)

below-IsChain :
    (fat : List ℕ) (c : ℕ) (cs : List ℕ) → IsChain fat c cs → All (λ x. x < length fat) (c ∷ cs)
below-IsChain fat c [] h = (h.0, tt)
below-IsChain fat c (d ∷ ds) h = (h.0, below-IsChain fat d ds h.4)

pub length-IsChain :
    (fat : List ℕ) (c : ℕ) (cs : List ℕ) → IsChain fat c cs → length cs < length fat
length-IsChain fat c cs h = omega (
  arith,
  length-IsDistinct (length fat) (c ∷ cs) (IsChain-IsDistinct fat c cs h)
      (below-IsChain fat c cs h),
)
