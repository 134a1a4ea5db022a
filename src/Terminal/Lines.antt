-- ===== src/Terminal/Lines.antt =====
-- A line that is typed goes to the history, from where the up arrow brings it back.
use duvuvurkarpogeschel.Prelude.{
  ℕ, zero, suc, ◌+◌, ◌-◌, ◌%◌, ◌^◌, ◌<◌, ◌≤◌, ◌≡◌, ◌≢◌, refl, sym, ap, ◌∙◌, Bool, true, false, ◌&&◌,
  List, [], ◌∷◌, ◌++◌, ◌==◌, ltb, set, drop, take, length, All, map, length-set, arith, Bool-cases,
  inl, inr,
}
use mathlib.Core.Path.{subst}
use mathlib.Core.List.{append-nil, append_assoc}
use duvuvurkarpogeschel.Prelude.Int.{negsuc}
use duvuvurkarpogeschel.Terminal.{
  line_max, up_key, Terminal, strlen, strcpy, earlier_line, move_index, history_line,
  history_up_down, enter, type_char, input_key, print,
}
use duvuvurkarpogeschel.Terminal.Bounds.{
  IsWellFormed, Input, key, put, clear, cut, react, react_all,
}

-- The text that a buffer holds.
abbrev pub text : List ℕ → List ℕ
text s = take (strlen s) s

strlen-copy : (s rest : List ℕ) → strlen (take (strlen s) s ++ 0 ∷ rest) ≡ strlen s
unfolding strlen
strlen-copy [] rest = refl
strlen-copy (c ∷ s) rest = elim (Bool-cases (c == 0)) [
  | inl e ↦ rw e refl
  | inr e ↦ rw (e, e) (ap suc (strlen-copy s rest))
]

take-copy : (s rest : List ℕ) → take (strlen s) (take (strlen s) s ++ 0 ∷ rest) ≡ take (strlen s) s
unfolding strlen
take-copy [] rest = refl
take-copy (c ∷ s) rest = elim (Bool-cases (c == 0)) [
  | inl e ↦ rw e refl
  | inr e ↦ rw e (ap (λ r. c ∷ r) (take-copy s rest))
]

text-strcpy : (dest source : List ℕ) → text (strcpy dest source) ≡ text source
unfolding strcpy
text-strcpy dest source =
    ap (λ n. take n (take (strlen source) source ++ 0 ∷ drop (strlen source + 1) dest))
      (strlen-copy source (drop (strlen source + 1) dest))
    ∙ take-copy source (drop (strlen source + 1) dest)

-- A byte that a key may type.
abbrev pub IsTyped : ℕ → Type 0
IsTyped c = (0 < c) × (c < 2 ^ 8) × (c ≢ 0x0a) × (c ≢ 0x08)

text-set :
    (s : List ℕ) (n : ℕ) → n < length s → All IsTyped (take n s) → text (set s n 0) ≡ take n s
unfolding strlen
text-set [] n h k = absurd (omega arith)
text-set (c ∷ s) zero h k = refl
text-set (c ∷ s) (suc n) h k =
    let e : (c == 0) ≡ false = ground (arith, k.0) in
    rw e (ap (λ r. c ∷ r) (text-set s n (omega arith) k.1))

strlen-set_exact :
    (s : List ℕ) (n : ℕ) → n < length s → All IsTyped (take n s) → strlen (set s n 0) ≡ n
unfolding strlen
strlen-set_exact [] n h k = absurd (omega arith)
strlen-set_exact (c ∷ s) zero h k = refl
strlen-set_exact (c ∷ s) (suc n) h k =
    let e : (c == 0) ≡ false = ground (arith, k.0) in
    rw e (ap suc (strlen-set_exact s n (omega arith) k.1))

take-set : (s : List ℕ) (n c : ℕ) → n < length s → take (suc n) (set s n c) ≡ take n s ++ c ∷ []
take-set [] n c h = absurd (omega arith)
take-set (d ∷ s) zero c h = refl
take-set (d ∷ s) (suc n) c h = ap (λ r. d ∷ r) (take-set s n c (omega arith))

-- Room for as many bytes more, on the screen and in the line.
record HasRoom (t : Terminal) (n : ℕ) : Type 0 where
  full : length t.linebuf ≡ line_max
  room : t.linebuf_index + n < line_max
  columns_left : t.cursor.x + n ≤ 47

type_one :
    (t : Terminal) (c n : ℕ)
    → HasRoom t (suc n)
    → IsTyped c
    → let after = input_key t 0 c in
      HasRoom after n
      × (after.linebuf_index ≡ t.linebuf_index + 1)
      × (take after.linebuf_index after.linebuf ≡ take t.linebuf_index t.linebuf ++ c ∷ [])
      × (after.cmd_history ≡ t.cmd_history)
unfolding input_key type_char
type_one t c n h k =
    let enter : (c == 0x0a) ≡ false = ground (arith, k) in
    let back : (c == 0x08) ≡ false = ground (arith, k) in
    let char : (c == 0) ≡ false = ground (arith, k) in
    let small : c % 256 ≡ c = omega (arith, k.1) in
    let next : t.linebuf_index + 1 ≡ suc t.linebuf_index = omega arith in
    let typed : take (t.linebuf_index + 1) (set t.linebuf t.linebuf_index (c % 256))
        ≡ take t.linebuf_index t.linebuf ++ c ∷ [] =
      ap (λ n. take n (set t.linebuf t.linebuf_index (c % 256))) next
      ∙ ap (λ d. take (suc t.linebuf_index) (set t.linebuf t.linebuf_index d)) small
      ∙ take-set t.linebuf t.linebuf_index c (let f = h.full in let r = h.room in omega arith) in
    let fits : (ltb t.cursor.x 47 && ltb t.linebuf_index 127) ≡ true =
      ground (arith, h.room, h.columns_left) in
    rw (enter, back, char, fits)
      (
        record {
          full = length-set t.linebuf t.linebuf_index (c % 256) ∙ h.full;
          room = let r = h.room in omega arith;
          columns_left = let r = h.columns_left in omega arith;
        },
        refl,
        typed,
        refl,
      )

enter-history :
    (t : Terminal)
    → 0 < t.linebuf_index
    → ((enter t).cmd_history
        ≡ set t.linebuf t.linebuf_index 0 ∷ take (length t.cmd_history - 1) t.cmd_history)
      × ((enter t).cmd_history_index ≡ negsuc 0)
unfolding enter
enter-history t h = let e : ltb 0 t.linebuf_index ≡ true = ground arith in rw e (refl, refl)

-- The up arrow on a terminal with a line as the latest of its history.
up-text :
    (t : Terminal) (line : List ℕ) (older : List (List ℕ))
    → t.cmd_history ≡ line ∷ older
    → t.cmd_history_index ≡ negsuc 0
    → (text (input_key t up_key 0).linebuf ≡ text line)
      × ((input_key t up_key 0).linebuf_index ≡ strlen line)
unfolding input_key history_up_down move_index earlier_line history_line
up-text t line older e i =
    let some : ltb 0 (suc (length older)) ≡ true = ground arith in
    rw (i, e, some) (text-strcpy t.linebuf line, refl)

press_enter : (t : Terminal) → input_key t 0 0x0a ≡ enter t
unfolding input_key
press_enter t = refl

abbrev pub typed_keys : List ℕ → List Input
typed_keys cs = map (key 0) cs

-- What a program that runs does to its terminal.
abbrev pub IsOutput : Input → Type 0
IsOutput (key keycode unicode) = ⊥
IsOutput (put u) = Unit
IsOutput clear = Unit
IsOutput (cut i) = Unit

module _ (hankaku zenkaku : ℕ → Bool) where
  type_all :
      (t : Terminal) (cs : List ℕ)
      → HasRoom t (length cs)
      → All IsTyped cs
      → let after = react_all hankaku zenkaku t (typed_keys cs) in
        HasRoom after 0
        × (after.linebuf_index ≡ t.linebuf_index + length cs)
        × (take after.linebuf_index after.linebuf ≡ take t.linebuf_index t.linebuf ++ cs)
        × (after.cmd_history ≡ t.cmd_history)
  type_all t [] h k = (h, omega arith, sym (append-nil (take t.linebuf_index t.linebuf)), refl)
  type_all t (c ∷ cs) h k =
      let one = type_one t c (length cs) h k.0 in
      let rest = type_all (input_key t 0 c) cs one.0 k.1 in
      (
        rest.0,
        omega (arith, rest.1, one.1),
        rest.2
            ∙ ap (λ p. p ++ cs) one.2
            ∙ append_assoc (take t.linebuf_index t.linebuf) (c ∷ []) cs,
        rest.3 ∙ one.3,
      )

  print-history :
      (t : Terminal) (u : ℕ)
      → ((print hankaku zenkaku t u).cmd_history ≡ t.cmd_history)
        × ((print hankaku zenkaku t u).cmd_history_index ≡ t.cmd_history_index)
  unfolding print
  print-history t u = elim (Bool-cases t.show_window) [
    | inl e ↦ rw e (refl, refl)
    | inr e ↦ rw e (refl, refl)
  ]

  outputs :
      (t : Terminal) (is : List Input)
      → All IsOutput is
      → let after = react_all hankaku zenkaku t is in
        (after.cmd_history ≡ t.cmd_history) × (after.cmd_history_index ≡ t.cmd_history_index)
  outputs t [] h = (refl, refl)
  outputs t (key keycode unicode ∷ is) h = absurd h.0
  outputs t (put u ∷ is) h =
      let rest = outputs (print hankaku zenkaku t u) is h.1 in
      let now = print-history t u in (rest.0 ∙ now.0, rest.1 ∙ now.1)
  outputs t (clear ∷ is) h = outputs (react hankaku zenkaku t clear) is h.1
  outputs t (cut i ∷ is) h = outputs (react hankaku zenkaku t (cut i)) is h.1

  -- On a terminal whose line is empty, a text is typed that fits on the cursor's line: of bytes
  -- other than NUL, newline and backspace, and not empty. After Enter, and whatever is printed then,
  -- the up arrow brings the text back, with the place to write next at its end.
  pub recall_lem :
      (t : Terminal) (cs : List ℕ) (is : List Input)
      → IsWellFormed t
      → t.linebuf_index ≡ 0
      → t.cursor.x + length cs ≤ 47
      → 0 < length cs
      → All IsTyped cs
      → All IsOutput is
      → let typed = react_all hankaku zenkaku t (typed_keys cs) in
        let after = react_all hankaku zenkaku (input_key typed 0 0x0a) is in
        (text (input_key after up_key 0).linebuf ≡ cs)
        × ((input_key after up_key 0).linebuf_index ≡ length cs)
  recall_lem t cs is h empty fits some_text typed output =
      let room : HasRoom t (length cs) = record {
        full = h.full;
        room = omega (arith, empty, fits);
        columns_left = fits;
      } in
      let after = type_all t cs room typed in
      let last = react_all hankaku zenkaku t (typed_keys cs) in
      let index : last.linebuf_index ≡ length cs = omega (arith, after.1, empty) in
      let content : take last.linebuf_index last.linebuf ≡ cs =
        after.2 ∙ ap (λ n. take n t.linebuf ++ cs) empty in
      let line = set last.linebuf last.linebuf_index 0 in
      let short : last.linebuf_index < length last.linebuf =
        omega (arith, after.0.full, index, fits) in
      let line_text : text line ≡ cs =
        text-set last.linebuf last.linebuf_index short (subst (All IsTyped) (sym content) typed)
        ∙ content in
      let kept = outputs (input_key last 0 0x0a) is output in
      let entered = enter-history last (omega (arith, index, some_text)) in
      let up =
        up-text (react_all hankaku zenkaku (input_key last 0 0x0a) is) line
          (take (length last.cmd_history - 1) last.cmd_history)
          (kept.0 ∙ ap (λ s. s.cmd_history) (press_enter last) ∙ entered.0)
          (kept.1 ∙ ap (λ s. s.cmd_history_index) (press_enter last) ∙ entered.1) in
      (
        up.0 ∙ line_text,
        up.1
            ∙ strlen-set_exact last.linebuf last.linebuf_index short
                (subst (All IsTyped) (sym content) typed)
            ∙ index,
      )
