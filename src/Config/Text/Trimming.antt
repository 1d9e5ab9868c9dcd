-- ===== src/Config/Text/Trimming.antt =====
-- Texts with white space at their ends, and the pieces of SplitN.
use Prim.Native.Char.{Char, code}
use Prim.Native.String.{◌++◌}
use Prim.Native.String.append
use hiddify_core.Prelude.{
  String, ◌≡◌, ◌≢◌, refl, ap, sym, ◌∙◌, Bool, true, false, not, ◌&&◌, [], ◌∷◌, some, none, Option,
  nat_eq_iff, Option-cases, inl, inr, arith,
}
use hiddify_core.Config.Text.{
  split_first, is_space, trim_left, trim_right, trim_space, push_unless_blank, strip_prefix,
  has_prefix,
}
use hiddify_core.Config.Text.Joining.{lacks}

abbrev pub every : (Char → Bool) → String → Bool
every p String.[] = true
every p (String.◌∷◌ c s) = p c && every p s

abbrev pub blank : String → Bool
blank = every is_space

abbrev pub unspaced : String → Bool
unspaced = every (λ c. not (is_space c))

trim_left-blank : (w s : String) → blank w ≡ true → trim_left (w ++ s) ≡ trim_left s
unfolding trim_left
trim_left-blank String.[] s h = rw (append.nil s) refl
trim_left-blank (String.◌∷◌ c w) s h = rw (append.cons c w s) (ground (arith, trim_left-blank w s))

trim_right-blank : (w : String) → blank w ≡ true → trim_right w ≡ ""
unfolding trim_right
trim_right-blank String.[] h = refl
trim_right-blank (String.◌∷◌ c w) h = rw (trim_right-blank w (ground arith)) (ground arith)

push-ne-nil : (c : Char) (s : String) → s ≢ "" → push_unless_blank c s ≡ String.◌∷◌ c s
push-ne-nil c String.[] h = absurd (h refl)
push-ne-nil c (String.◌∷◌ d s) h = refl

append_nil : (x : String) → x ++ "" ≡ x
append_nil String.[] = append.nil ""
append_nil (String.◌∷◌ c x) = rw (append.cons c x "", append_nil x) refl

pub append_assoc : (x y z : String) → (x ++ y) ++ z ≡ x ++ y ++ z
append_assoc String.[] y z = rw (append.nil y, append.nil (y ++ z)) refl
append_assoc (String.◌∷◌ c x) y z =
    rw (append.cons c x y, append.cons c (x ++ y) z, append.cons c x (y ++ z), append_assoc x y z)
      refl

append-ne-nil : (s t : String) → t ≢ "" → s ++ t ≢ ""
append-ne-nil String.[] t h = rw (append.nil t) h
append-ne-nil (String.◌∷◌ c s) t h = rw (append.cons c s t) (λ e. cc)

trim_right-append : (s t : String) → trim_right t ≢ "" → trim_right (s ++ t) ≡ s ++ trim_right t
unfolding trim_right
trim_right-append String.[] t h = rw (append.nil t, append.nil (trim_right t)) refl
trim_right-append (String.◌∷◌ c s) t h =
    rw (append.cons c s t, append.cons c s (trim_right t), trim_right-append s t h)
      (push-ne-nil c _ (append-ne-nil s (trim_right t) h))

push-not-blank :
    (c : Char) (s : String) → not (is_space c) ≡ true → push_unless_blank c s ≡ String.◌∷◌ c s
push-not-blank c String.[] h = ground arith
push-not-blank c (String.◌∷◌ d s) h = refl

trim_right-unspaced : (x w : String) → unspaced x ≡ true → blank w ≡ true → trim_right (x ++ w) ≡ x
unfolding trim_right
trim_right-unspaced String.[] w hx hw = rw (append.nil w) (trim_right-blank w hw)
trim_right-unspaced (String.◌∷◌ c x) w hx hw =
    rw (append.cons c x w, trim_right-unspaced x w (ground arith) hw)
      (push-not-blank c x (ground arith))

trim_left-unspaced : (x : String) → unspaced x ≡ true → trim_left x ≡ x
unfolding trim_left
trim_left-unspaced String.[] h = refl
trim_left-unspaced (String.◌∷◌ c x) h = ground arith

-- A text without blanks behind some.
pub trim_space-behind :
    (w x : String) → blank w ≡ true → unspaced x ≡ true → trim_space (w ++ x) ≡ x
trim_space-behind w x hw hx =
    ap trim_right (trim_left-blank w x hw ∙ trim_left-unspaced x hx)
    ∙ (ap trim_right (sym (append_nil x)) ∙ trim_right-unspaced x "" hx refl)

-- A text with blanks around it, of which the ends are not blank.
pub trim_space-around :
    (w x y v : String)
    → blank w ≡ true
    → blank v ≡ true
    → ((s : String) → trim_left (x ++ s) ≡ x ++ s)
    → unspaced y ≡ true
    → y ≢ ""
    → trim_space (w ++ x ++ y ++ v) ≡ x ++ y
trim_space-around w x y v hw hv hx hy ny =
    let e = trim_right-unspaced y v hy hv in
    ap trim_right (trim_left-blank w (x ++ y ++ v) hw ∙ hx (y ++ v))
    ∙ (trim_right-append x (y ++ v) (λ f. ny (sym e ∙ f)) ∙ ap (λ z. x ++ z) e)

strip_prefix-append : (p s : String) → strip_prefix p (p ++ s) ≡ some s
unfolding strip_prefix
strip_prefix-append String.[] s = rw (append.nil s) refl
strip_prefix-append (String.◌∷◌ c p) s =
    rw (append.cons c p s) (ground (arith, nat_eq_iff (code c) (code c), strip_prefix-append p s))

abbrev pub found : Option String → Bool
found (some _) = true
found none = false

pub has_prefix-append : (p s : String) → has_prefix (p ++ s) p ≡ true
unfolding has_prefix
has_prefix-append p s = ap found (strip_prefix-append p s)

pub append-one : (c : Char) (s : String) → String.◌∷◌ c "" ++ s ≡ String.◌∷◌ c s
append-one c s = rw (append.cons c "" s, append.nil s) refl

-- A text whose first character is not blank, with more behind it.
pub trim_left-solid :
    (c : Char) (x s : String)
    → is_space c ≡ false
    → trim_left (String.◌∷◌ c x ++ s) ≡ String.◌∷◌ c x ++ s
unfolding trim_left
trim_left-solid c x s h = rw (append.cons c x s, h) refl

pub split_first-append :
    (sep : Char) (x t : String)
    → lacks sep x ≡ true
    → split_first sep (x ++ String.◌∷◌ sep t) ≡ x ∷ t ∷ []
unfolding split_first
split_first-append sep String.[] t h =
    rw (append.nil (String.◌∷◌ sep t)) (ground (arith, nat_eq_iff (code sep) (code sep)))
split_first-append sep (String.◌∷◌ c x) t h =
    rw (append.cons c x (String.◌∷◌ sep t)) (ground (arith, split_first-append sep x t))

-- A text has the characters of its prefixes.
strip_prefix-lacks :
    (sep : Char) (p s t : String)
    → strip_prefix p s ≡ some t
    → lacks sep p ≡ false
    → lacks sep s ≡ false
unfolding strip_prefix
strip_prefix-lacks sep String.[] s t h l = cc
strip_prefix-lacks sep (String.◌∷◌ c p) String.[] t h l = cc
strip_prefix-lacks sep (String.◌∷◌ c p) (String.◌∷◌ d s) t h l =
    ground (arith, strip_prefix-lacks sep p s t)

pub has_prefix-lacks :
    (sep : Char) (p s : String) → has_prefix s p ≡ true → lacks sep p ≡ false → lacks sep s ≡ false
unfolding has_prefix
has_prefix-lacks sep p s h l = elim (Option-cases (strip_prefix p s)) [
  | inl e ↦ let f : true ≡ false = sym h ∙ ap found e in cc
  | inr (t, e) ↦ strip_prefix-lacks sep p s t e l
]
