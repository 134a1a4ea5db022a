-- ===== src/Terminal/Command/Vector.antt =====
-- MakeArgVector on a line of words with skip_spaces between them.
use duvuvurkarpogeschel.Prelude.{
  ℕ, zero, suc, ◌+◌, ◌<◌, ◌≤◌, ◌≡◌, refl, sym, ap, ◌∙◌, true, false, some, List, [], ◌∷◌, ◌++◌,
  ◌==◌, leb, ltb, if◌then◌else◌, drop, take, length, replicate, map, All, arith, drop-length,
  take-length, drop-replicate, length-append, Bool-cases, inl, inr,
}
use mathlib.Core.List.{append_assoc, append-nil}
use duvuvurkarpogeschel.Error.{full, WithError, ok, err}
use duvuvurkarpogeschel.Terminal.{strlen}
use duvuvurkarpogeschel.Terminal.Command.{
  blank, isspace, skip_spaces, string_at, ArgVector, push_to_argv, word_length, ends, continue_with,
  push_words, push_arguments, make_arg_vector,
}

abbrev pub IsWord : List ℕ → Type 0
IsWord w = (0 < length w) × All (λ c. ((c == 0) ≡ false) × (isspace c ≡ false)) w

-- Each word behind skip_spaces, one more than its number says.
abbrev pub spread : List (ℕ × List ℕ) → List ℕ
spread [] = []
spread (g ∷ gs) = blank ∷ replicate g.0 blank ++ (g.1 ++ spread gs)

length-spread : (gs : List (ℕ × List ℕ)) → length gs ≤ length (spread gs)
length-spread [] = omega arith
length-spread (g ∷ gs) = omega (
  arith,
  length-spread gs,
  length-append g.1 (spread gs),
  length-append (replicate g.0 blank) (g.1 ++ spread gs),
)

abbrev pub words : List (ℕ × List ℕ) → List (List ℕ)
words gs = map (λ (g : ℕ × List ℕ). g.1) gs

-- What argv and argbuf are for given strings.
abbrev pub append_string : ArgVector → List ℕ → ArgVector
append_string v s = record {
  argv = v.argv ++ length v.argbuf ∷ [];
  argbuf = v.argbuf ++ s ++ 0 ∷ [];
}

abbrev pub append_strings : ArgVector → List (List ℕ) → ArgVector
append_strings v [] = v
append_strings v (s ∷ ss) = append_strings (append_string v s) ss

abbrev pub total : List (List ℕ) → ℕ
total [] = 0
total (s ∷ ss) = length s + 1 + total ss

push_to_argv-ok :
    (argv_len argbuf_len : ℕ) (v : ArgVector) (s : List ℕ)
    → length v.argv < argv_len
    → length v.argbuf < argbuf_len
    → push_to_argv argv_len argbuf_len v s ≡ ok (append_string v s)
unfolding push_to_argv
push_to_argv-ok argv_len argbuf_len v s h k = ground arith

push_to_argv-full :
    (argv_len argbuf_len : ℕ) (v : ArgVector) (s : List ℕ)
    → argv_len ≤ length v.argv
    → push_to_argv argv_len argbuf_len v s ≡ err full
unfolding push_to_argv
push_to_argv-full argv_len argbuf_len v s h = ground arith

skip_spaces-word :
    (n : ℕ) (w r : List ℕ) → IsWord w → skip_spaces (replicate n blank ++ (w ++ r)) ≡ n
unfolding skip_spaces isspace
skip_spaces-word zero [] r h = absurd (omega (arith, h.0))
skip_spaces-word zero (c ∷ w) r h = let e = h.1.0.1 in rw e refl
skip_spaces-word (suc n) w r h = ap suc (skip_spaces-word n w r h)

word_length-spread :
    (w : List ℕ) (gs : List (ℕ × List ℕ))
    → All (λ c. ((c == 0) ≡ false) × (isspace c ≡ false)) w
    → word_length (w ++ spread gs) ≡ length w
unfolding word_length isspace
word_length-spread [] [] h = refl
word_length-spread [] (g ∷ gs) h = refl
word_length-spread (c ∷ w) gs h =
    let e = h.0.0 in let f = h.0.1 in rw (e, f) (ap suc (word_length-spread w gs h.1))

ends-word : (w r : List ℕ) → IsWord w → ends (w ++ r) ≡ false
ends-word [] r h = absurd (omega (arith, h.0))
ends-word (c ∷ w) r h = h.1.0.0

one_word :
    (fuel argv_len argbuf_len n : ℕ) (w : List ℕ) (gs : List (ℕ × List ℕ)) (v : ArgVector)
    → IsWord w
    → push_words (suc fuel) argv_len argbuf_len (replicate n blank ++ (w ++ spread gs)) v
      ≡ continue_with (push_to_argv argv_len argbuf_len v w) (λ (x : ArgVector).
        if ends (spread gs)
        then ok x
        else push_words fuel argv_len argbuf_len (drop 1 (spread gs)) x)
unfolding push_words
one_word fuel argv_len argbuf_len n w gs v h =
    rw
      (
        skip_spaces-word n w (spread gs) h,
        drop-replicate n blank (w ++ spread gs),
        ends-word w (spread gs) h,
        word_length-spread w gs h.1,
        take-length w (spread gs),
        drop-length w (spread gs),
      )
      refl

-- The result for strings that all have room in argbuf.
abbrev vector_of : (argv_len : ℕ) → ArgVector → List (List ℕ) → WithError ArgVector
vector_of argv_len v ss =
    if leb (length v.argv + length ss) argv_len then ok (append_strings v ss) else err full

-- A string for which argv has no room.
no_room :
    (fuel argv_len argbuf_len n : ℕ) (w : List ℕ) (gs : List (ℕ × List ℕ)) (v : ArgVector)
    → IsWord w
    → argv_len ≤ length v.argv
    → push_words (suc fuel) argv_len argbuf_len (replicate n blank ++ (w ++ spread gs)) v ≡ err full
unfolding continue_with
no_room fuel argv_len argbuf_len n w gs v h k =
    one_word fuel argv_len argbuf_len n w gs v h
    ∙ rw (push_to_argv-full argv_len argbuf_len v w k) refl

with_room :
    (fuel argv_len argbuf_len n : ℕ) (w : List ℕ) (gs : List (ℕ × List ℕ)) (v : ArgVector)
    → IsWord w
    → length v.argv < argv_len
    → length v.argbuf < argbuf_len
    → push_words (suc fuel) argv_len argbuf_len (replicate n blank ++ (w ++ spread gs)) v ≡ (
        if ends (spread gs)
        then ok (append_string v w)
        else push_words fuel argv_len argbuf_len (drop 1 (spread gs)) (append_string v w))
unfolding continue_with
with_room fuel argv_len argbuf_len n w gs v h k l =
    one_word fuel argv_len argbuf_len n w gs v h
    ∙ rw (push_to_argv-ok argv_len argbuf_len v w k l) refl

length-append_string :
    (v : ArgVector) (s : List ℕ)
    → (length (append_string v s).argv ≡ length v.argv + 1)
      × (length (append_string v s).argbuf ≡ length v.argbuf + length s + 1)
length-append_string v s = (
  length-append v.argv (length v.argbuf ∷ []),
  omega (
    arith,
    length-append v.argbuf (s ++ 0 ∷ []),
    length-append s (0 ∷ []),
    length-append (v.argbuf ++ s) (0 ∷ []),
    length-append v.argbuf s,
  ),
)

vector_of-full :
    (argv_len : ℕ) (v : ArgVector) (ss : List (List ℕ))
    → argv_len < length v.argv + length ss
    → vector_of argv_len v ss ≡ err full
vector_of-full argv_len v ss h = ground arith

vector_of-append :
    (argv_len : ℕ) (v : ArgVector) (s : List ℕ) (ss : List (List ℕ))
    → vector_of argv_len (append_string v s) ss ≡ vector_of argv_len v (s ∷ ss)
vector_of-append argv_len v s ss =
    ap (λ n. if leb n argv_len then ok (append_strings (append_string v s) ss) else err full)
      (omega (arith, (length-append_string v s).0))

push_words_lem :
    (fuel argv_len argbuf_len n : ℕ) (w : List ℕ) (gs : List (ℕ × List ℕ)) (v : ArgVector)
    → IsWord w
    → All IsWord (words gs)
    → length gs < fuel
    → length v.argbuf + total (w ∷ words gs) ≤ argbuf_len
    → push_words fuel argv_len argbuf_len (replicate n blank ++ (w ++ spread gs)) v
      ≡ vector_of argv_len v (w ∷ words gs)
push_words_lem zero argv_len argbuf_len n w gs v h k enough room = absurd (omega arith)
push_words_lem (suc fuel) argv_len argbuf_len n w [] v h k enough room =
    elim (Bool-cases (ltb (length v.argv) argv_len)) [
      | inr e ↦
          no_room fuel argv_len argbuf_len n w [] v h (ground (arith, e))
          ∙ sym (vector_of-full argv_len v (w ∷ []) (ground (arith, e)))
      | inl e ↦
          let fits : leb (length v.argv + 1) argv_len ≡ true = ground (arith, e) in
          with_room fuel argv_len argbuf_len n w [] v h (ground (arith, e)) (omega (arith, room))
          ∙ rw fits refl
    ]
push_words_lem (suc fuel) argv_len argbuf_len n w (g ∷ gs) v h k enough room =
    elim (Bool-cases (ltb (length v.argv) argv_len)) [
      | inr e ↦
          no_room fuel argv_len argbuf_len n w (g ∷ gs) v h (ground (arith, e))
          ∙ sym (vector_of-full argv_len v (w ∷ g.1 ∷ words gs) (ground (arith, e)))
      | inl e ↦
          with_room fuel argv_len argbuf_len n w (g ∷ gs) v h (ground (arith, e))
            (omega (arith, room))
          ∙ push_words_lem fuel argv_len argbuf_len g.0 g.1 gs (append_string v w) k.0 k.1
              (omega arith) (omega (arith, room, (length-append_string v w).1))
          ∙ vector_of-append argv_len v w (g.1 ∷ words gs)
    ]

pub text-before :
    (s after : List ℕ)
    → All (λ c. (c == 0) ≡ false) s
    → take (strlen (s ++ 0 ∷ after)) (s ++ 0 ∷ after) ≡ s
unfolding strlen
text-before [] after h = refl
text-before (c ∷ s) after h = rw h.0 (ap (λ r. c ∷ r) (text-before s after h.1))

-- The string at each place of argv.
pub string_at-before :
    (before s after : List ℕ)
    → All (λ c. (c == 0) ≡ false) s
    → string_at (before ++ (s ++ 0 ∷ after)) (length before) ≡ s
string_at-before before s after h = rw (drop-length before (s ++ 0 ∷ after)) (text-before s after h)

-- The strings one after the other, each with its NUL, and where they start.
abbrev block : List (List ℕ) → List ℕ
block [] = []
block (s ∷ ss) = s ++ 0 ∷ block ss

abbrev places : ℕ → List (List ℕ) → List ℕ
places at [] = []
places at (s ∷ ss) = at ∷ places (at + length s + 1) ss

abbrev IsText : List ℕ → Type 0
IsText s = All (λ c. (c == 0) ≡ false) s

append_strings-argbuf :
    (v : ArgVector) (ss : List (List ℕ)) → (append_strings v ss).argbuf ≡ v.argbuf ++ block ss
append_strings-argbuf v [] = sym (append-nil v.argbuf)
append_strings-argbuf v (s ∷ ss) =
    append_strings-argbuf (append_string v s) ss ∙ rw (append_assoc, append_assoc) refl

append_strings-argv :
    (v : ArgVector) (ss : List (List ℕ))
    → (append_strings v ss).argv ≡ v.argv ++ places (length v.argbuf) ss
append_strings-argv v [] = sym (append-nil v.argv)
append_strings-argv v (s ∷ ss) =
    append_strings-argv (append_string v s) ss
    ∙ append_assoc v.argv (length v.argbuf ∷ []) (places (length (append_string v s).argbuf) ss)
    ∙ ap (λ n. v.argv ++ length v.argbuf ∷ places n ss) (length-append_string v s).1

strings_of :
    (before : List ℕ) (ss : List (List ℕ))
    → All IsText ss
    → map (string_at (before ++ block ss)) (places (length before) ss) ≡ ss
strings_of before [] h = refl
strings_of before (s ∷ ss) h =
    let next = before ++ s ++ 0 ∷ [] in
    let size : length next ≡ length before + length s + 1 =
      omega (arith, length-append (before ++ s) (0 ∷ []), length-append before s) in
    let same : next ++ block ss ≡ before ++ (s ++ 0 ∷ block ss) =
      append_assoc (before ++ s) (0 ∷ []) (block ss) ∙ append_assoc before s (0 ∷ block ss) in
    let rest = strings_of next ss h.1 in
    let first = string_at-before before s (block ss) h.0 in
    ap
      (λ x.
        x
        ∷ map (string_at (before ++ (s ++ 0 ∷ block ss)))
            (places (length before + length s + 1) ss))
      first
    ∙ ap (λ r. s ∷ r)
        (ap (λ b. map (string_at b) (places (length before + length s + 1) ss)) (sym same)
          ∙ ap (λ n. map (string_at (next ++ block ss)) (places n ss)) (sym size)
          ∙ rest)

abbrev pub no_strings : ArgVector
no_strings = record { argv = []; argbuf = [] }

word-IsText : (s : List ℕ) → All (λ c. ((c == 0) ≡ false) × (isspace c ≡ false)) s → IsText s
word-IsText [] h = tt
word-IsText (c ∷ s) h = (h.0.0, word-IsText s h.1)

IsWord-IsText : (ss : List (List ℕ)) → All IsWord ss → All IsText ss
IsWord-IsText [] h = tt
IsWord-IsText (s ∷ ss) h = (word-IsText s h.0.1, IsWord-IsText ss h.1)

-- A command and words that have room together in argbuf, each but the first word behind one blank or more, give
-- kFull if they are more than argv has places for. Else they give
-- argc strings: at the places in argv stand the command and the words, in their order.
pub make_arg_vector-words :
    (command : List ℕ) (n : ℕ) (w : List ℕ) (gs : List (ℕ × List ℕ)) (argv_len argbuf_len : ℕ)
    → IsText command
    → IsWord w
    → All IsWord (words gs)
    → total (command ∷ w ∷ words gs) ≤ argbuf_len
    → 0 < argv_len
    → let strings = command ∷ w ∷ words gs in
      let v = append_strings no_strings strings in
      (make_arg_vector command (some (replicate n blank ++ (w ++ spread gs))) argv_len argbuf_len
        ≡ (if leb (length strings) argv_len then ok v else err full))
      × (map (string_at v.argbuf) v.argv ≡ strings)
unfolding make_arg_vector continue_with push_arguments
make_arg_vector-words command n w gs argv_len argbuf_len c h k room some_place =
    let strings = command ∷ w ∷ words gs in
    let v = append_string no_strings command in
    let pushed = push_to_argv-ok argv_len argbuf_len no_strings command some_place (omega arith) in
    (
      rw pushed (
          push_words_lem (suc (length (replicate n blank ++ (w ++ spread gs)))) argv_len argbuf_len
            n w gs v h k
            (omega (
              arith,
              length-spread gs,
              length-append w (spread gs),
              length-append (replicate n blank) (w ++ spread gs),
            ))
            (omega (arith, room, (length-append_string no_strings command).1))
          ∙ vector_of-append argv_len no_strings command (w ∷ words gs)
          ∙ ap (λ l. if leb l argv_len then ok (append_strings no_strings strings) else err full)
              (let zero_left : 0 + length strings ≡ length strings = omega arith in zero_left)),
      rw (append_strings-argbuf no_strings strings, append_strings-argv no_strings strings)
          (strings_of [] strings (c, IsWord-IsText (w ∷ words gs) (h, k))),
    )
