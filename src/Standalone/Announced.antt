-- ===== src/Standalone/Announced.antt =====
-- extractRefreshInterval of v2/standalone.go: which interval is found, and that one always is.
use Prim.Native.String.{◌++◌ as append_text}
use Prim.Native.String.append
use Prim.Native.Char.{Char, code}
use hiddify_core.Prelude.{
  ℕ, ◌≤◌, pos, ℤ, String, ◌≡◌, ◌≢◌, refl, ap, sym, ◌∙◌, true, false, ◌||◌, not, List, [], ◌∷◌, ◌++◌,
  all, ◌==◌, Outcome, done, failed, crashed, ◌>>=◌, arith, Bool-cases, inl, inr, if-elim, nat_eq,
  Option, some, none,
}
use hiddify_core.Config.Text.{
  prepend, second_part, int_max, has_prefix, split_on, join_on, split_first, trim_space, trim_left,
  is_space,
}
use hiddify_core.Config.Text.Decimal.{print, print-ne-nil, print-unspaced, atoi-print}
use hiddify_core.Config.Text.Joining.{lacks, split_on-join_on}
use hiddify_core.Config.Text.Trimming.{
  has_prefix-lacks, blank, trim_space-behind, trim_space-around, append_assoc, append-one,
  has_prefix-append, trim_left-solid, split_first-append,
}
use hiddify_core.Standalone.{
  Site, interval_from, parsed_interval, announces, interval_of_line, interval_of_lines,
  extract_refresh_interval,
}

-- The two words that announce an interval.
pub data Mark : Type 0 where
  slashes hash : Mark

abbrev pub word : Mark → String
word slashes = "//profile-update-interval"
word hash = "#profile-update-interval"

-- A line that announces `n`, with white space `w` in front, `gap` before the number and `v` behind it.
abbrev pub announcement : Mark → String → String → String → ℕ → String
announcement m w gap v n =
    append_text w
      (append_text (append_text (word m) (String.◌∷◌ ":" gap)) (append_text (print n) v))

module _ (site : Site) where
  -- The word with its colon is the prefix that the code looks for.
  marked :
      (m : Mark) (t : String)
      → append_text (word m) (String.◌∷◌ ":" t) ≡ append_text (append_text (word m) ":") t
  marked m t =
      ap (append_text (word m)) (sym (append-one ":" t)) ∙ sym (append_assoc (word m) ":" t)

  announces-word :
      (m : Mark) (t : String) → announces (append_text (word m) (String.◌∷◌ ":" t)) ≡ true
  unfolding announces
  announces-word slashes t =
      ap announces (marked slashes t)
      ∙ ap
          (λ b.
            b
            || has_prefix (append_text "//profile-update-interval:" t) "#profile-update-interval:")
          (has_prefix-append "//profile-update-interval:" t)
  announces-word hash t =
      rw (marked hash t, has_prefix-append "#profile-update-interval:" t) (ground arith)

  lacks-colon : (m : Mark) → lacks ":" (word m) ≡ true
  lacks-colon slashes = refl
  lacks-colon hash = refl

  word-solid :
      (m : Mark) (gap s : String)
      → trim_left (append_text (append_text (word m) (String.◌∷◌ ":" gap)) s)
        ≡ append_text (append_text (word m) (String.◌∷◌ ":" gap)) s
  unfolding is_space
  word-solid slashes gap s =
      rw (append.cons "/" "/profile-update-interval" (String.◌∷◌ ":" gap))
        (trim_left-solid "/" _ s refl)
  word-solid hash gap s =
      rw (append.cons "#" "profile-update-interval" (String.◌∷◌ ":" gap))
        (trim_left-solid "#" _ s refl)

  trimmed :
      (m : Mark) (w gap v : String) (n : ℕ)
      → blank w ≡ true
      → blank v ≡ true
      → trim_space (announcement m w gap v n)
        ≡ append_text (word m) (String.◌∷◌ ":" (append_text gap (print n)))
  trimmed m w gap v n hw hv =
      trim_space-around w (append_text (word m) (String.◌∷◌ ":" gap)) (print n) v hw hv
        (word-solid m gap) (print-unspaced n) (print-ne-nil n)
      ∙ (append_assoc (word m) (String.◌∷◌ ":" gap) (print n)
          ∙ ap (append_text (word m)) (append.cons ":" gap (print n)))

  split_lines :
      (before : List String) (line : String) (after : List String)
      → all (lacks "\n") (before ++ line ∷ after) ≡ true
      → split_on "\n" (join_on "\n" (before ++ line ∷ after)) ≡ before ++ line ∷ after
  split_lines [] line after h = split_on-join_on "\n" line after h
  split_lines (l ∷ before) line after h = split_on-join_on "\n" l (before ++ line ∷ after) h

  interval_of_word :
      (m : Mark) (gap : String) (n : ℕ)
      → blank gap ≡ true
      → n ≤ int_max
      → interval_of_line site (append_text (word m) (String.◌∷◌ ":" (append_text gap (print n))))
        ≡ done (pos n)
  interval_of_word m gap n hg hn =
      rw
        (
          split_first-append ":" (word m) (append_text gap (print n)) (lacks-colon m),
          trim_space-behind gap (print n) hg (print-unspaced n),
        )
        (ap (interval_from site "body" (print n)) (atoi-print n hn))

  interval_of_lines-finds :
      (before : List String) (line : String) (after : List String)
      → all (λ l. not (announces (trim_space l))) before ≡ true
      → announces (trim_space line) ≡ true
      → interval_of_lines site (before ++ line ∷ after) ≡ interval_of_line site (trim_space line)
  unfolding interval_of_lines
  interval_of_lines-finds [] line after hb ha = rw ha refl
  interval_of_lines-finds (l ∷ before) line after hb ha =
      ground (arith, interval_of_lines-finds before line after)

  -- A body that announces an interval of `n` hours in one of its lines, under either word and with any
  -- white space around the number, and of which no earlier line announces one, gives `n`, if it fits
  -- an int and no header is sent: what is printed is read back.
  pub extract_refresh_interval-announced :
      (m : Mark) (w gap v : String) (n : ℕ) (before after : List String)
      → blank w ≡ true
      → blank gap ≡ true
      → blank v ≡ true
      → n ≤ int_max
      → all (λ l. not (announces (trim_space l))) before ≡ true
      → all (lacks "\n") (before ++ announcement m w gap v n ∷ after) ≡ true
      → extract_refresh_interval site "" (join_on "\n" (before ++ announcement m w gap v n ∷ after))
        ≡ done (pos n)
  unfolding extract_refresh_interval
  extract_refresh_interval-announced m w gap v n before after hw hg hv hn hb hl =
      let line = announcement m w gap v n in
      let t = trimmed m w gap v n hw hv in
      ap (interval_of_lines site) (split_lines before line after hl)
      ∙ (interval_of_lines-finds before line after hb
            (ap announces t ∙ announces-word m (append_text gap (print n)))
          ∙ (ap (interval_of_line site) t ∙ interval_of_word m gap n hg hn))

  prepend-two :
      (c : Char) (xs : List String)
      → second_part xs ≢ crashed
      → second_part (prepend c xs) ≢ crashed
  prepend-two c [] h = h
  prepend-two c (x ∷ []) h = h
  prepend-two c (x ∷ y ∷ xs) h = λ e. cc

  split_first-two :
      (line : String) → lacks ":" line ≡ false → second_part (split_first ":" line) ≢ crashed
  unfolding split_first
  split_first-two String.[] h = λ e. cc
  split_first-two (String.◌∷◌ c s) h =
      if-elim (λ xs. second_part xs ≢ crashed) (nat_eq (code c) (code ":")) (λ _. λ e. cc)
        (λ n. prepend-two c _ (split_first-two s (ground arith)))

  announces-lacks : (line : String) → announces line ≡ true → lacks ":" line ≡ false
  unfolding announces
  announces-lacks line h = elim (Bool-cases (has_prefix line "//profile-update-interval:")) [
    | inl a ↦ has_prefix-lacks ":" "//profile-update-interval:" line a refl
    | inr b ↦ has_prefix-lacks ":" "#profile-update-interval:" line (ground arith) refl
  ]

  interval_from-ne-crashed :
      (place str : String) (x : Option ℤ) → interval_from site place str x ≢ crashed
  interval_from-ne-crashed place str (some n) = λ e. cc
  interval_from-ne-crashed place str none = λ e. cc

  with_part-ne-crashed :
      (x : Outcome String)
      → x ≢ crashed
      → (x >>= λ (part : String). parsed_interval site "body" (trim_space part)) ≢ crashed
  with_part-ne-crashed (done part) h = interval_from-ne-crashed "body" (trim_space part) _
  with_part-ne-crashed (failed e) h = λ e. cc
  with_part-ne-crashed crashed h = absurd (h refl)

  interval_of_lines-ne-crashed : (ls : List String) → interval_of_lines site ls ≢ crashed
  unfolding interval_of_lines
  interval_of_lines-ne-crashed [] = λ e. cc
  interval_of_lines-ne-crashed (l ∷ ls) =
      if-elim (λ x. x ≢ crashed) (announces (trim_space l))
        (λ a.
          with_part-ne-crashed _
            (split_first-two (trim_space l) (announces-lacks (trim_space l) a)))
        (λ _. interval_of_lines-ne-crashed ls)

  -- Whatever the header and the body, parts[1] exists where it is read.
  extract_refresh_interval-ne-crashed :
      (header body : String) → extract_refresh_interval site header body ≢ crashed
  unfolding extract_refresh_interval
  extract_refresh_interval-ne-crashed header body =
      if-elim (λ x. x ≢ crashed) (header == "")
        (λ _. interval_of_lines-ne-crashed (split_on "\n" body))
        (λ _. interval_from-ne-crashed "header" header _)
