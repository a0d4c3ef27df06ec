-- ===== src/Metrics/Labels.antt =====
-- How a reader of the Prometheus text format reads the value of a label.
use tarsk.Base.{
  Bool-cases, Option, Text, [], ap, arith, contains, false, if◌then◌else◌, inl, inr, nat_eq, none,
  refl, some, subst, sym, ℕ, ◌++◌, ◌==◌, ◌∙◌, ◌∷◌, ◌≡◌,
}
use tarsk.Metrics.Exposition.{escape_label, replace_bytes}

abbrev pub with_byte : ℕ → Option (Text × Text) → Option (Text × Text)
with_byte x none = none
with_byte x (some (value, rest)) = some (x ∷ value, rest)

-- The byte that an escape of the format stands for: a backslash, a quote, or `n` for a line feed.
abbrev pub unescaped : ℕ → Option ℕ
unescaped y =
    if y == 92 then some 92 else if y == 34 then some 34 else if y == b'n' then some 10 else none

-- A value up to its closing quote, and what follows. No line feed stands in it, and no other escape.
unfoldable pub read_label : Text → Option (Text × Text)
read_label [] = none
read_label (x ∷ []) = if x == 34 then some ([], []) else none
read_label (x ∷ y ∷ rest) =
    let after_one = read_label (y ∷ rest) in
    let after_two = read_label rest in
    if x == 34
    then some ([], y ∷ rest)
    else if x == 10
    then none
    else if x == 92
    then (elim (unescaped y) [ none ↦ none | some byte ↦ with_byte byte after_two ])
    else with_byte x after_one

read_label-byte :
    (x y : ℕ) (rest : Text)
    → (x == 34) ≡ false
    → (x == 92) ≡ false
    → (x == 10) ≡ false
    → read_label (x ∷ y ∷ rest) ≡ with_byte x (read_label (y ∷ rest))
unfolding read_label
read_label-byte x y rest no_quote no_slash no_feed = ground (arith, no_quote, no_slash, no_feed)

-- A label is never followed by nothing: its closing quote comes.
closed : (xs rest : Text) → (y : ℕ) × (ys : Text) × ((xs ++ 34 ∷ rest) ≡ y ∷ ys)
closed [] rest = (34, rest, refl)
closed (x ∷ xs) rest = (x, xs ++ 34 ∷ rest, refl)

-- What a reader makes of the value: it fails where there is a line feed.
abbrev pub read_back : (value rest : Text) → Option (Text × Text)
read_back value rest = if contains value 10 then none else some (value, rest)

read_back-byte :
    (x : ℕ) (value rest : Text)
    → (x == 10) ≡ false
    → with_byte x (read_back value rest) ≡ read_back (x ∷ value) rest
unfolding contains
read_back-byte x value rest no_feed = ground (arith, no_feed)

-- A name without a line feed is read back from its label, whatever other bytes it has, and the quote
-- that closes it is the one that was written after it; a name with a line feed makes the label one
-- that a reader of the format refuses.
pub read_label-escape_label :
    (value rest : Text)
    → read_label (escape_label value ++ 34 ∷ rest)
      ≡ (if contains value 10 then none else some (value, rest))
unfolding escape_label replace_bytes read_label contains
read_label-escape_label [] [] = refl
read_label-escape_label [] (y ∷ rest) = refl
read_label-escape_label (x ∷ value) rest =
    let again = read_label-escape_label value rest in
    elim (Bool-cases (x == 92)) [
      | inl slash ↦
          subst
            (λ x. read_label (escape_label (x ∷ value) ++ 34 ∷ rest) ≡ read_back (x ∷ value) rest)
            (sym ((nat_eq.beq_iff x 92).0 slash))
            (ap (with_byte 92) again ∙ read_back-byte 92 value rest refl)
      | inr no_slash ↦ elim (Bool-cases (x == 34)) [
        | inl quote ↦
            subst
              (λ x. read_label (escape_label (x ∷ value) ++ 34 ∷ rest) ≡ read_back (x ∷ value) rest)
              (sym ((nat_eq.beq_iff x 34).0 quote))
              (ap (with_byte 34) again ∙ read_back-byte 34 value rest refl)
        | inr no_quote ↦
            let (y, ys, e) = closed (escape_label value) rest in
            elim (Bool-cases (x == 10)) [
              | inl feed ↦
                  rw (no_slash, no_quote, feed)
                    (ap (λ zs. read_label (x ∷ zs)) e ∙ ground (arith, feed, no_quote))
              | inr no_feed ↦
                  rw (no_slash, no_quote)
                    (ap (λ zs. read_label (x ∷ zs)) e
                      ∙ read_label-byte x y ys no_quote no_slash no_feed
                      ∙ ap (λ zs. with_byte x (read_label zs)) (sym e)
                      ∙ ap (with_byte x) again
                      ∙ read_back-byte x value rest no_feed)
            ]
      ]
    ]
