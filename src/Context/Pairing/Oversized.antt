-- ===== src/Context/Pairing/Oversized.antt =====
-- `truncateHeadTail` of packages/core/src/context/contextGovernor.ts on texts whose characters count
-- one token each.
use mathlib.Core.List.{append_assoc}
use kross.Base.{
  ap, length, length-drop, All, All-drop, drop, take_last, Bool-cases, inl, inr, ℕ, zero, suc, ◌+◌,
  ◌-◌, ◌*◌, ◌/◌, ◌≤◌, ◌<◌, leb, ◌≡◌, refl, false, [], ◌∷◌, ◌++◌, arith,
}
use kross.Context.Tokens.{Text, is_cjk, quarters, estimate_text_tokens}
use kross.Context.Aging.{truncate_head_tail, take_units, max_chars, omission}

-- A CJK unified ideograph, U+4E00 to U+9FFF.
abbrev pub IsIdeograph : ℕ → Type 0
IsIdeograph c = (19968 ≤ c) × (c ≤ 40959)

quarters_ideograph :
    (c : ℕ) (text : Text) → IsIdeograph c → quarters false (c ∷ text) ≡ 4 + quarters false text
unfolding quarters is_cjk
quarters_ideograph c text h = ground arith

quarters-append :
    (text rest : Text)
    → All IsIdeograph text
    → quarters false (text ++ rest) ≡ length text * 4 + quarters false rest
quarters-append [] rest h = omega arith
quarters-append (c ∷ text) rest h =
    omega (arith, quarters_ideograph c (text ++ rest) h.0, quarters-append text rest h.1)

quarters-omission : (rest : Text) → quarters false (omission ++ rest) ≡ 26 + quarters false rest
unfolding quarters is_cjk
quarters-omission rest = omega arith

quarters_lem : (text : Text) → All IsIdeograph text → quarters false text ≡ length text * 4
unfolding quarters
quarters_lem [] h = refl
quarters_lem (c ∷ text) h = omega (arith, quarters_ideograph c text h.0, quarters_lem text h.1)

All-take_units : (n : ℕ) (text : Text) → All IsIdeograph text → All IsIdeograph (take_units n text)
All-take_units zero text h = tt
All-take_units (suc n) [] h = tt
All-take_units (suc n) (c ∷ text) h = (h.0, All-take_units n text h.1)

length-take_units : (n : ℕ) (text : Text) → n ≤ length text → length (take_units n text) ≡ n
length-take_units zero text h = refl
length-take_units (suc n) [] h = absurd (omega arith)
length-take_units (suc n) (c ∷ text) h = omega (arith, length-take_units n text (omega arith))

-- The head and the tail count a token for each character that is left.
quarters-cut :
    (half : ℕ) (text : Text)
    → All IsIdeograph text
    → half ≤ length text
    → quarters false (take_units half text ++ omission ++ take_last half text) ≡ half * 8 + 26
quarters-cut half text h l =
    let tail = drop (length text - half) text in
    let h' = All-drop IsIdeograph (length text - half) text h in
    omega (
      arith,
      ap (quarters false) (append_assoc (take_units half text) omission tail),
      quarters-append (take_units half text) (omission ++ tail) (All-take_units half text h),
      length-take_units half text l,
      quarters-omission tail,
      quarters_lem tail h',
      length-drop (length text - half) text,
    )

-- If a text of CJK unified ideographs is longer than the cap, then what `truncateHeadTail` makes of
-- it for that cap is still estimated at more tokens than the cap.
pub truncate_head_tail-ideographs :
    (cap : ℕ) (text : Text)
    → All IsIdeograph text
    → cap < length text
    → cap < estimate_text_tokens (truncate_head_tail text cap)
unfolding estimate_text_tokens truncate_head_tail
truncate_head_tail-ideographs cap text h l = elim (Bool-cases (leb (length text) (max_chars cap))) [
  | inl e ↦ rw (e, truncate_head_tail) (omega (arith, quarters_lem text h))
  | inr e ↦
      rw (e, truncate_head_tail)
        (omega (arith, quarters-cut ((max_chars cap - 20) / 2) text h (ground arith)))
]
