-- ===== src/Config/Text/Joining.antt =====
-- Splitting what was joined, and prefixes of appended texts.
use Prim.Native.Char.{Char, code}
use Prim.Native.String.{◌++◌}
use Prim.Native.String.append
use hiddify_core.Prelude.{
  String, ◌≡◌, refl, ap, ◌∙◌, Bool, true, not, ◌&&◌, List, [], ◌∷◌, all, nat_eq, nat_eq_iff, arith,
}
use hiddify_core.Config.Text.{split_on, join_on, split, join}

abbrev pub lacks : Char → String → Bool
lacks sep String.[] = true
lacks sep (String.◌∷◌ c s) = not (nat_eq (code c) (code sep)) && lacks sep s

abbrev pub no_comma : String → Bool
no_comma = lacks ","

module _ (sep : Char) where
  split_on-append :
      (x t : String)
      → lacks sep x ≡ true
      → split_on sep (x ++ String.◌∷◌ sep t) ≡ x ∷ split_on sep t
  unfolding split_on
  split_on-append String.[] t h =
      rw (append.nil (String.◌∷◌ sep t)) (ground (arith, nat_eq_iff (code sep) (code sep)))
  split_on-append (String.◌∷◌ c s) t h =
      rw (append.cons c s (String.◌∷◌ sep t)) (ground (arith, split_on-append s t))

  split_on-lacks : (x : String) → lacks sep x ≡ true → split_on sep x ≡ x ∷ []
  unfolding split_on
  split_on-lacks String.[] h = refl
  split_on-lacks (String.◌∷◌ c s) h = ground (arith, split_on-lacks s)

  -- Splitting gives back the texts that were joined, if there is one and none has the separator.
  pub split_on-join_on :
      (x : String) (xs : List String)
      → all (lacks sep) (x ∷ xs) ≡ true
      → split_on sep (join_on sep (x ∷ xs)) ≡ x ∷ xs
  unfolding join_on
  split_on-join_on x [] h = split_on-lacks x (ground arith)
  split_on-join_on x (y ∷ xs) h =
      split_on-append x (join_on sep (y ∷ xs)) (ground arith)
      ∙ ap (λ ys. x ∷ ys) (split_on-join_on y xs (ground arith))

pub split-join :
    (x : String) (xs : List String) → all no_comma (x ∷ xs) ≡ true → split (join (x ∷ xs)) ≡ x ∷ xs
split-join = split_on-join_on ","
