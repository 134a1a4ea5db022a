-- ===== src/Terminal/Command/Split.antt =====
-- The parts that ExecuteLine takes from a line with a bar.
use duvuvurkarpogeschel.Prelude.{
  ℕ, suc, ◌+◌, ◌<◌, ◌≡◌, refl, sym, ap, ◌∙◌, true, false, Option, none, some, List, [], ◌∷◌, ◌++◌,
  ◌==◌, if◌then◌else◌, set, drop, length, All, arith, length-append, Bool-cases, inl, inr,
}
use mathlib.Core.List.{append_assoc}
use duvuvurkarpogeschel.Terminal.Command.{
  blank, redirect, bar, isspace, strchr, skip_spaces, string_at, Line, end_at, behind, start_behind,
  string_from, parse_line,
}
use duvuvurkarpogeschel.Terminal.Command.Vector.{text-before}

-- Bytes among which there is neither a byte nor the NUL.
abbrev pub IsFree : ℕ → List ℕ → Type 0
IsFree c s = All (λ d. ((d == 0) ≡ false) × ((d == c) ≡ false)) s

shift : ℕ → Option ℕ → Option ℕ
shift n none = none
shift n (some i) = some (n + i)

shift-suc :
    (n : ℕ) (o : Option ℕ)
    → (elim (shift n o) [ none ↦ none | some i ↦ some (suc i) ]) ≡ shift (suc n) o
unfolding shift
shift-suc n none = refl
shift-suc n (some i) = ap some (omega arith)

shift-zero : (o : Option ℕ) → o ≡ shift 0 o
unfolding shift
shift-zero none = refl
shift-zero (some i) = ap some (omega arith)

strchr-append :
    (xs ys : List ℕ) (c : ℕ) → IsFree c xs → strchr (xs ++ ys) c ≡ shift (length xs) (strchr ys c)
unfolding strchr
strchr-append [] ys c h = shift-zero (strchr ys c)
strchr-append (x ∷ xs) ys c h =
    let nul = h.0.0 in
    let other = h.0.1 in
    let rest = strchr-append xs ys c h.1 in
    rw (other, nul, rest) (shift-suc (length xs) (strchr ys c))

-- The first place of a byte behind bytes that are not it, and none before the NUL.
strchr-found : (xs ys : List ℕ) (c : ℕ) → IsFree c xs → strchr (xs ++ c ∷ ys) c ≡ some (length xs)
unfolding strchr shift
strchr-found xs ys c h =
    let self : (c == c) ≡ true = ground arith in
    strchr-append xs (c ∷ ys) c h ∙ rw self (ap some (omega arith))

strchr-nul : (xs ys : List ℕ) (c : ℕ) → 0 < c → IsFree c xs → strchr (xs ++ 0 ∷ ys) c ≡ none
unfolding strchr shift
strchr-nul xs ys c positive h =
    let other : (0 == c) ≡ false = ground (arith, positive) in
    strchr-append xs (0 ∷ ys) c h ∙ rw other refl

set-append : (xs ys : List ℕ) (y v : ℕ) → set (xs ++ y ∷ ys) (length xs) v ≡ xs ++ v ∷ ys
set-append [] ys y v = refl
set-append (x ∷ xs) ys y v = ap (λ r. x ∷ r) (set-append xs ys y v)

drop-suc : (xs ys : List ℕ) (y : ℕ) → drop (suc (length xs)) (xs ++ y ∷ ys) ≡ ys
drop-suc [] ys y = refl
drop-suc (x ∷ xs) ys y = drop-suc xs ys y

drop-past : (xs ys : List ℕ) (y : ℕ) → drop (length xs + 1) (xs ++ y ∷ ys) ≡ ys
drop-past xs ys y =
    rw (let next : length xs + 1 ≡ suc (length xs) = omega arith in next) (drop-suc xs ys y)

-- A text that starts with no space.
skip_spaces-start :
    (s r : List ℕ) (x : ℕ) → skip_spaces s ≡ 0 → isspace x ≡ false → skip_spaces (s ++ x ∷ r) ≡ 0
unfolding skip_spaces
skip_spaces-start [] r x h k = rw k refl
skip_spaces-start (c ∷ s) r x h k = elim (Bool-cases (isspace c)) [
  | inl e ↦ absurd (
      let some_space : (if isspace c then suc (skip_spaces s) else 0) ≡ suc (skip_spaces s) =
        rw e refl in
      omega (arith, h, some_space))
  | inr e ↦ rw e refl
]

-- A piece of a line: without the NUL, a mark of redirection, a bar and a blank.
abbrev pub IsPlain : List ℕ → Type 0
IsPlain s =
    All
      (λ d.
        ((d == 0) ≡ false)
        × ((d == redirect) ≡ false)
        × ((d == bar) ≡ false)
        × ((d == blank) ≡ false))
      s

plain-text : (s : List ℕ) → IsPlain s → All (λ d. (d == 0) ≡ false) s
plain-text [] h = tt
plain-text (c ∷ s) h = (h.0.0, plain-text s h.1)

plain-redirect : (s : List ℕ) → IsPlain s → IsFree redirect s
plain-redirect [] h = tt
plain-redirect (c ∷ s) h = ((h.0.0, h.0.1), plain-redirect s h.1)

plain-bar : (s : List ℕ) → IsPlain s → IsFree bar s
plain-bar [] h = tt
plain-bar (c ∷ s) h = ((h.0.0, h.0.2), plain-bar s h.1)

plain-blank : (s : List ℕ) → IsPlain s → IsFree blank s
plain-blank [] h = tt
plain-blank (c ∷ s) h = ((h.0.0, h.0.3), plain-blank s h.1)

-- Three pieces with a byte between each two and the NUL behind them.
abbrev pub line3 : (u : List ℕ) (c : ℕ) (v : List ℕ) (d : ℕ) (w rest : List ℕ) → List ℕ
line3 u c v d w rest = u ++ c ∷ (v ++ d ∷ (w ++ 0 ∷ rest))

module _ (u v w rest : List ℕ) (c d : ℕ) where
  regroup : line3 u c v d w rest ≡ (u ++ c ∷ v) ++ d ∷ (w ++ 0 ∷ rest)
  regroup = sym (append_assoc u (c ∷ v) (d ∷ (w ++ 0 ∷ rest)))

  second_place : length (u ++ c ∷ v) ≡ length u + 1 + length v
  second_place = omega (arith, length-append u (c ∷ v))

  end_second : set (line3 u c v d w rest) (length u + 1 + length v) 0 ≡ line3 u c v 0 w rest
  end_second =
      ap (λ l. set l (length u + 1 + length v) 0) regroup
      ∙ ap (λ n. set ((u ++ c ∷ v) ++ d ∷ (w ++ 0 ∷ rest)) n 0) (sym second_place)
      ∙ set-append (u ++ c ∷ v) (w ++ 0 ∷ rest) d 0
      ∙ append_assoc u (c ∷ v) (0 ∷ (w ++ 0 ∷ rest))

  find_second :
      IsFree d (u ++ c ∷ v) → strchr (line3 u c v d w rest) d ≡ some (length u + 1 + length v)
  find_second h =
      ap (λ l. strchr l d) regroup
      ∙ strchr-found (u ++ c ∷ v) (w ++ 0 ∷ rest) d h
      ∙ ap some second_place

  behind_second : drop (length u + 1 + length v + 1) (line3 u c v d w rest) ≡ w ++ 0 ∷ rest
  behind_second =
      ap (drop (length u + 1 + length v + 1)) regroup
      ∙ ap (λ n. drop (n + 1) ((u ++ c ∷ v) ++ d ∷ (w ++ 0 ∷ rest))) (sym second_place)
      ∙ drop-past (u ++ c ∷ v) (w ++ 0 ∷ rest) d

  string_third :
      All (λ x. (x == 0) ≡ false) w
      → string_at (line3 u c v d w rest) (length u + 1 + length v + 1) ≡ w
  string_third h = rw behind_second (text-before w rest h)

module _ (u v w rest : List ℕ) where
  string_second :
      (c : ℕ) → All (λ x. (x == 0) ≡ false) v → string_at (line3 u c v 0 w rest) (length u + 1) ≡ v
  string_second c h =
      rw (drop-past u (v ++ 0 ∷ (w ++ 0 ∷ rest)) c) (text-before v (w ++ 0 ∷ rest) h)

  string_first : All (λ x. (x == 0) ≡ false) u → string_at (line3 u 0 v 0 w rest) 0 ≡ u
  string_first h = text-before u (v ++ 0 ∷ (w ++ 0 ∷ rest)) h

IsFree-append :
    (c b : ℕ) (xs ys : List ℕ)
    → ((b == 0) ≡ false) × ((b == c) ≡ false)
    → IsFree c xs
    → IsFree c ys
    → IsFree c (xs ++ b ∷ ys)
IsFree-append c b [] ys e h k = (e, k)
IsFree-append c b (x ∷ xs) ys e h k = (h.0, IsFree-append c b xs ys e h.1 k)

bar_is_no_space : isspace bar ≡ false
unfolding isspace
bar_is_no_space = refl

nul_is_no_space : isspace 0 ≡ false
unfolding isspace
nul_is_no_space = refl

module _ (command args sub rest : List ℕ) (command_plain : IsPlain command)
    (args_plain : IsPlain args) (sub_plain : IsPlain sub) (args_start : skip_spaces args ≡ 0)
    (sub_start : skip_spaces sub ≡ 0) where
  abbrev parts : Line
  parts = record {
    command = command;
    first_arg = some args;
    redir_dest = none;
    subcommand = some sub;
  }

  no_redirect :
      (v w : List ℕ) (c d : ℕ)
      → IsPlain v
      → IsPlain w
      → ((c == 0) ≡ false) × ((c == redirect) ≡ false)
      → ((d == 0) ≡ false) × ((d == redirect) ≡ false)
      → strchr (line3 command c v d w rest) redirect ≡ none
  no_redirect v w c d vp wp ce de =
      let whole : line3 command c v d w rest ≡ (command ++ c ∷ (v ++ d ∷ w)) ++ 0 ∷ rest = sym (
        append_assoc command (c ∷ (v ++ d ∷ w)) (0 ∷ rest)
        ∙ ap (λ r. command ++ c ∷ r) (append_assoc v (d ∷ w) (0 ∷ rest))) in
      ap (λ l. strchr l redirect) whole
      ∙ strchr-nul (command ++ c ∷ (v ++ d ∷ w)) rest redirect (omega arith) (
          IsFree-append redirect c command (v ++ d ∷ w) ce (plain-redirect command command_plain)
            (IsFree-append redirect d v w de (plain-redirect v vp) (plain-redirect w wp)))

  argument_first : parse_line (line3 command blank args bar sub rest) ≡ parts
  unfolding parse_line end_at behind start_behind string_from
  argument_first =
      let mark =
        strchr-found command (args ++ bar ∷ (sub ++ 0 ∷ rest)) blank
          (plain-blank command command_plain) in
      let pipe = find_second command args sub rest blank bar (
        IsFree-append bar blank command args (refl, refl) (plain-bar command command_plain)
          (plain-bar args args_plain)) in
      let none_there =
        no_redirect args sub blank bar args_plain sub_plain (refl, refl) (refl, refl) in
      let cut = set-append command (args ++ bar ∷ (sub ++ 0 ∷ rest)) blank 0 in
      let cut_both = end_second command args sub rest 0 bar in
      let args_text = plain-text args args_plain in
      let sub_text = plain-text sub sub_plain in
      let args_at = drop-past command (args ++ bar ∷ (sub ++ 0 ∷ rest)) 0 in
      let sub_at = behind_second command args sub rest 0 0 in
      let no_space = skip_spaces-start args (sub ++ 0 ∷ rest) bar args_start bar_is_no_space in
      let no_space_sub = skip_spaces-start sub rest 0 sub_start nul_is_no_space in
      let at_args : length command + 1 + 0 ≡ length command + 1 = omega arith in
      let at_sub : length command + 1 + length args + 1 + 0 ≡ length command + 1 + length args + 1 =
        omega arith in
      rw
        (
          mark, pipe, none_there, cut, cut_both, args_at, no_space, at_args, sub_at, no_space_sub,
          at_sub,
        )
        (rw
          (
            string_first command args sub rest (plain-text command command_plain),
            string_second command args sub rest 0 args_text,
            string_third command args sub rest 0 0 sub_text,
          )
          refl)

  bar_first : parse_line (line3 command bar sub blank args rest) ≡ parts
  unfolding parse_line end_at behind start_behind string_from
  bar_first =
      let pipe =
        strchr-found command (sub ++ blank ∷ (args ++ 0 ∷ rest)) bar
          (plain-bar command command_plain) in
      let mark = find_second command sub args rest bar blank (
        IsFree-append blank bar command sub (refl, refl) (plain-blank command command_plain)
          (plain-blank sub sub_plain)) in
      let none_there =
        no_redirect sub args bar blank sub_plain args_plain (refl, refl) (refl, refl) in
      let cut = end_second command sub args rest bar blank in
      let cut_both = set-append command (sub ++ 0 ∷ (args ++ 0 ∷ rest)) bar 0 in
      let args_text = plain-text args args_plain in
      let sub_text = plain-text sub sub_plain in
      let args_at = behind_second command sub args rest bar 0 in
      let sub_at = drop-past command (sub ++ 0 ∷ (args ++ 0 ∷ rest)) 0 in
      let no_space = skip_spaces-start args rest 0 args_start nul_is_no_space in
      let no_space_sub = skip_spaces-start sub (args ++ 0 ∷ rest) 0 sub_start nul_is_no_space in
      let at_args : length command + 1 + length sub + 1 + 0 ≡ length command + 1 + length sub + 1 =
        omega arith in
      let at_sub : length command + 1 + 0 ≡ length command + 1 = omega arith in
      rw
        (
          mark, pipe, none_there, cut, cut_both, args_at, no_space, at_args, sub_at, no_space_sub,
          at_sub,
        )
        (rw
          (
            string_first command sub args rest (plain-text command command_plain),
            string_second command sub args rest 0 sub_text,
            string_third command sub args rest 0 0 args_text,
          )
          refl)

  -- Of three pieces with no NUL, blank, bar and mark of redirection, the second and the third starting with no space, the line
  -- `command args|sub` is parsed as the command with its argument and the command that reads its output. The
  -- line `command|sub args` is parsed as the same: the argument goes to the first command.
  pub parse_line-bar :
      (parse_line (line3 command blank args bar sub rest) ≡ record {
        command = command;
        first_arg = some args;
        redir_dest = none;
        subcommand = some sub;
      })
      × (parse_line (line3 command bar sub blank args rest) ≡ record {
        command = command;
        first_arg = some args;
        redir_dest = none;
        subcommand = some sub;
      })
  parse_line-bar = (argument_first, bar_first)
