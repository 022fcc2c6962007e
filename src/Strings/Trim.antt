-- ===== src/Strings/Trim.antt =====
-- The white space helpers of server-5204/util/strings.h, on strings without a zero byte.
use expert_spoon.Prelude.{
  length, inl, inr, Bool-cases, subst, ℕ, ◌≡◌, refl, sym, ap, ◌∙◌, Bool, true, false, ◌&&◌, ◌||◌,
  [], ◌∷◌, ◌++◌, Str, leb, if◌then◌else◌, ◌==◌, All, arith,
}

-- isspace
unfoldable pub is_space : ℕ → Bool
is_space c = c == 32 || (leb 9 c && leb c 13)

unfoldable pub is_empty_str : Str → Bool
is_empty_str [] = true
is_empty_str (c ∷ s) = is_space c && is_empty_str s

unfoldable pub ltrim : Str → Str
ltrim [] = []
ltrim (c ∷ s) = let rest = ltrim s in if is_space c then rest else c ∷ s

-- The end of what is left is behind the last character that is no space.
unfoldable pub rtrim : Str → Str
rtrim [] = []
rtrim (c ∷ s) = if is_empty_str (c ∷ s) then [] else c ∷ rtrim s

unfoldable pub trim : Str → Str
trim s = rtrim (ltrim s)

abbrev pub Spaces : Str → Type 0
Spaces = All (λ c. is_space c ≡ true)

-- The first character is no space; and the last is none.
abbrev pub Begins : Str → Type 0
Begins [] = Unit
Begins (c ∷ s) = is_space c ≡ false

abbrev pub Ends : Str → Type 0
Ends s = (t : Str) (c : ℕ) → s ≡ t ++ c ∷ [] → is_space c ≡ false

record Left (s r : Str) : Type 0 where
  before : Str
  spaces : Spaces before
  whole : s ≡ before ++ r
  begins : Begins r

ltrim-Left : (s : Str) → Left s (ltrim s)
unfolding ltrim
ltrim-Left [] = record { before = []; spaces = tt; whole = refl; begins = tt }
ltrim-Left (c ∷ s) =
    let r = ltrim-Left s in
    elim (Bool-cases (is_space c)) [
      | inl e ↦ rw e (record {
        before = c ∷ r.before;
        spaces = (e, r.spaces);
        whole = ap (λ x. c ∷ x) r.whole;
        begins = r.begins;
      })
      | inr e ↦ rw e (record { before = []; spaces = tt; whole = refl; begins = e })
    ]

all_white : (s : Str) → is_empty_str s ≡ true → Spaces s
unfolding is_empty_str
all_white [] h = tt
all_white (c ∷ s) h = let (a, b) = both (is_space c) (is_empty_str s) h in (a, all_white s b)
  where
    both : (a b : Bool) → (a && b) ≡ true → (a ≡ true) × (b ≡ true)
    both true b h = (refl, h)
    both false b h = cc

-- A string that is not only spaces keeps a character when it is trimmed.
record Right (s r : Str) : Type 0 where
  behind : Str
  spaces : Spaces behind
  whole : s ≡ r ++ behind
  ends : Ends r

no_end : Ends []
no_end [] c e = absurd (omega (arith, ap length e))
no_end (x ∷ t) c e = absurd (omega (arith, ap length e))

first : (c d : ℕ) (r : Str) → c ∷ r ≡ d ∷ [] → c ≡ d
first c d r p = cc

others : (c x : ℕ) (r t : Str) → c ∷ r ≡ x ∷ t → r ≡ t
others c x r t p = cc

white_only : (s : Str) → Spaces s → is_empty_str s ≡ true
unfolding is_empty_str
white_only [] h = refl
white_only (c ∷ s) h = rw (h.0) (white_only s h.1)

longer_Ends : (c : ℕ) (r : Str) → (r ≡ [] → is_space c ≡ false) → Ends r → Ends (c ∷ r)
longer_Ends c r h e [] d p = subst (λ x. is_space x ≡ false) (first c d r p) (h (others c d r [] p))
longer_Ends c r h e (x ∷ t) d p = e t d (others c x r (t ++ d ∷ []) p)

rtrim-Right : (s : Str) → Right s (rtrim s)
unfolding rtrim
rtrim-Right [] = record { behind = []; spaces = tt; whole = refl; ends = no_end }
rtrim-Right (c ∷ s) =
    let r = rtrim-Right s in
    elim (Bool-cases (is_empty_str (c ∷ s))) [
      | inl e ↦
          rw e
            (record { behind = c ∷ s; spaces = all_white (c ∷ s) e; whole = refl; ends = no_end })
      | inr e ↦ rw e (record {
        behind = r.behind;
        spaces = r.spaces;
        whole = ap (λ x. c ∷ x) r.whole;
        ends = longer_Ends c (rtrim s) (λ q. kept r.behind q r.whole r.spaces e) r.ends;
      })
    ]
  where
    kept :
        (behind : Str)
        → rtrim s ≡ []
        → s ≡ rtrim s ++ behind
        → Spaces behind
        → is_empty_str (c ∷ s) ≡ false
        → is_space c ≡ false
    kept behind q w a e =
        let spaces : is_empty_str s ≡ true =
          ap is_empty_str (w ∙ ap (λ x. x ++ behind) q) ∙ white_only behind a in
        only (is_space c) (is_empty_str s) spaces (unfold is_empty_str in e)
      where
        only : (a b : Bool) → b ≡ true → (a && b) ≡ false → a ≡ false
        only true b h k = absurd (clash (sym h ∙ k))
          where
            clash : true ≡ false → ⊥
            clash e = cc
        only false b h k = refl

rtrim-Begins : (s : Str) → Begins s → Begins (rtrim s)
unfolding rtrim is_empty_str
rtrim-Begins [] h = tt
rtrim-Begins (c ∷ s) h = rw h h

-- A string without the white space at its ends, which is all that is gone.
pub record Trimmed (s r : Str) : Type 0 where
  pub before : Str
  pub behind : Str
  pub whole : s ≡ before ++ (r ++ behind)
  pub spaces : Spaces before × Spaces behind
  pub tight : Begins r × Ends r

-- `trim` takes white space from both ends of a string and nothing else, and what it leaves neither
-- begins nor ends with white space.
pub trim-Trimmed : (s : Str) → Trimmed s (trim s)
unfolding trim
trim-Trimmed s =
    let l = ltrim-Left s in
    let r = rtrim-Right (ltrim s) in
    record {
      before = l.before;
      behind = r.behind;
      whole = l.whole ∙ ap (λ x. l.before ++ x) r.whole;
      spaces = (l.spaces, r.spaces);
      tight = (rtrim-Begins (ltrim s) l.begins, r.ends);
    }
