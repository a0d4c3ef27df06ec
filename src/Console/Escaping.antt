-- ===== src/Console/Escaping.antt =====
-- Text from outside, as it is shown.
use tarsk.Base.{All, All-append, Bool, Text, [], arith, nat_eq, not, true, ℕ, ◌&&◌, ◌==◌, ◌∷◌, ◌≡◌}
use tarsk.Console.{escape, escaped_byte}

-- May a byte stand in the text of an element or of a quoted attribute?
abbrev pub is_plain : ℕ → Bool
is_plain x = not (x == b'<') && not (x == b'>') && not (x == 34) && not (x == 39)

escaped_byte-plain : (x : ℕ) → All (λ y. is_plain y ≡ true) (escaped_byte x)
escaped_byte-plain x = ground arith

-- Whatever the text, no byte that opens or closes a tag or a quoted attribute is left in it.
pub escape-All : (xs : Text) → All (λ y. is_plain y ≡ true) (escape xs)
unfolding escape
escape-All [] = tt
escape-All (x ∷ xs) =
    All-append (λ y. is_plain y ≡ true) (escaped_byte x) (escape xs) (escaped_byte-plain x)
      (escape-All xs)
