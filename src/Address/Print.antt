-- ===== src/Address/Print.antt =====
-- The decimal text of an octet, and what the inner loop of `parse_ip_addr` reads from it.
use simple_vpn.Base.{
  ℕ, ◌≤◌, ◌<◌, ◌≡◌, refl, ap, sym, ◌∙◌, arith, [], ◌∷◌, ◌++◌, append-nil, false, Bool, true, ◌&&◌,
  not, ltb, leb, ◌==◌, length, holds_below, holds_below_at, length-append,
}
use simple_vpn.Memory.{Bytes, IsText}
use simple_vpn.Memory.Laws.{IsText-append}
use simple_vpn.Address.{octet_loop, decimal, dotted}

-- Text with no dot and no NUL.
is_plain : Bytes → Bool
is_plain [] = true
is_plain (c ∷ s) = not (c == b'.') && (ltb 0 c && (ltb c 256 && is_plain s))

is_octet_text : ℕ → Bool
is_octet_text n =
    is_plain (decimal n) && (leb (length (decimal n)) 3 && ((octet_loop (decimal n) 0).0 == n))

octet_table : holds_below is_octet_text 256 ≡ true
unfolding holds_below is_octet_text is_plain decimal octet_loop
octet_table = refl

octet_text :
    (n : ℕ)
    → n < 256
    → (is_plain (decimal n) ≡ true) × (length (decimal n) ≤ 3) × ((octet_loop (decimal n) 0).0 ≡ n)
unfolding is_octet_text
octet_text n h = ground (arith, holds_below_at is_octet_text 256 octet_table n h)

plain_head :
    (c : ℕ) (s : Bytes)
    → is_plain (c ∷ s) ≡ true
    → ((c == b'.') ≡ false) × (0 < c) × (c < 256) × (is_plain s ≡ true)
unfolding is_plain
plain_head c s h = ground arith

-- The inner loop reads plain text to its end.
octet_loop-append :
    (s rest : Bytes) (octet : ℕ)
    → is_plain s ≡ true
    → octet_loop (s ++ rest) octet ≡ octet_loop rest (octet_loop s octet).0
unfolding octet_loop
octet_loop-append [] rest octet h = refl
octet_loop-append (c ∷ s) rest octet h =
    let (other, _, _, plain) = plain_head c s h in rw other (octet_loop-append s rest _ plain)

is_plain-IsText : (s : Bytes) → is_plain s ≡ true → IsText s
is_plain-IsText [] h = tt
is_plain-IsText (c ∷ s) h =
    let (_, positive, byte, plain) = plain_head c s h in (positive, byte, is_plain-IsText s plain)

-- An octet in front of a dot, or at the end, is read back.
pub octet_loop-decimal :
    (n : ℕ) (rest : Bytes) → n < 256 → octet_loop (decimal n ++ b'.' ∷ rest) 0 ≡ (n, b'.' ∷ rest)
octet_loop-decimal n rest h =
    let (plain, _, value) = octet_text n h in
    octet_loop-append (decimal n) (b'.' ∷ rest) 0 plain
    ∙ ap (octet_loop (b'.' ∷ rest)) value
    ∙ unfold octet_loop in refl

pub octet_loop-decimal_end : (n : ℕ) → n < 256 → octet_loop (decimal n) 0 ≡ (n, [])
octet_loop-decimal_end n h =
    let (plain, _, value) = octet_text n h in
    ap (λ (t : Bytes). octet_loop t 0) (sym (append-nil (decimal n)))
    ∙ octet_loop-append (decimal n) [] 0 plain
    ∙ ap (octet_loop []) value
    ∙ unfold octet_loop in refl

pub dotted-IsText : (a b c d : ℕ) → a < 256 → b < 256 → c < 256 → d < 256 → IsText (dotted a b c d)
unfolding dotted
dotted-IsText a b c d ha hb hc hd =
    let dot = λ (s t : Bytes) (hs : IsText s) (ht : IsText t).
      IsText-append s (b'.' ∷ t) hs (omega arith, omega arith, ht) in
    let octet = λ (n : ℕ) (h : n < 256). is_plain-IsText (decimal n) (octet_text n h).0 in
    dot (decimal a) _ (octet a ha)
      (dot (decimal b) _ (octet b hb) (dot (decimal c) _ (octet c hc) (octet d hd)))

-- Fifteen characters at most.
pub length-dotted :
    (a b c d : ℕ) → a < 256 → b < 256 → c < 256 → d < 256 → length (dotted a b c d) ≤ 15
unfolding dotted
length-dotted a b c d ha hb hc hd = omega (
  arith,
  octet_text a ha,
  octet_text b hb,
  octet_text c hc,
  octet_text d hd,
  length-append (decimal a) (b'.' ∷ (decimal b ++ (b'.' ∷ (decimal c ++ (b'.' ∷ decimal d))))),
  length-append (decimal b) (b'.' ∷ (decimal c ++ (b'.' ∷ decimal d))),
  length-append (decimal c) (b'.' ∷ decimal d),
)
