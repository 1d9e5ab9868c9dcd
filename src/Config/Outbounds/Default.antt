-- ===== src/Config/Outbounds/Default.antt =====
-- The default of the selector.
use hiddify_core.Prelude.{
  String, ◌≡◌, refl, Bool, not, ◌||◌, List, [], ◌∷◌, any, arith, if◌then◌else◌, ◌==◌, if-elim, ap,
  ◌∙◌,
}
use hiddify_core.Config.Text.{contains}
use hiddify_core.Config.Outbounds.{default_select, selector}

abbrev pub marked : String → Bool
marked t = contains t "§default§"

default_select-any :
    (d : String) (ts : List String)
    → default_select d ts ≡ (if any marked ts then "§default§" else d)
unfolding default_select
default_select-any d [] = refl
default_select-any d (t ∷ ts) =
    default_select-any (if marked t then "§default§" else d) ts ∙ ground arith

-- The selector's default is one of its members exactly when no proxy's tag contains "§default§" or
-- one is equal to it.
selector-default :
    (tags : List String)
    → any (λ t. t == (selector tags).default) (selector tags).members
      ≡ (not (any marked tags) || any (λ t. t == "§default§") tags)
unfolding selector
selector-default tags =
    ap (λ d. any (λ t. t == d) ("auto" ∷ tags)) (default_select-any "auto" tags)
    ∙ if-elim
        (λ d.
          any (λ t. t == d) ("auto" ∷ tags)
          ≡ (not (any marked tags) || any (λ t. t == "§default§") tags))
        (any marked tags) (λ e. rw e) (λ e. rw e)
