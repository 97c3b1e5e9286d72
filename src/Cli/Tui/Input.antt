-- ===== src/Cli/Tui/Input.antt =====
-- `String::insert`, `String::remove` and `String::len`: positions and lengths are in bytes of UTF-8.
-- `none` is the panic at a position that is no boundary of a character, or past the end.
use battery_pack.Prelude.{
  keep, ℕ, zero, suc, ◌+◌, ◌-◌, ◌≤◌, ◌<◌, ◌==◌, ltb, leb, ◌≡◌, refl, sym, ◌∙◌, ap, inl, inr, arith,
  Bool-cases, Text,
}
use battery_pack.Prelude.{true, Option, none, some, [], ◌∷◌, if◌then◌else◌}

-- `char::len_utf8`
unfoldable pub len_utf8 : ℕ → ℕ
len_utf8 c = if ltb c 0x80 then 1 else if ltb c 0x800 then 2 else if ltb c 0x10000 then 3 else 4

unfoldable pub byte_len : Text → ℕ
byte_len [] = 0
byte_len (c ∷ s) = len_utf8 c + byte_len s

unfoldable pub insert_char : ℕ → ℕ → Text → Option Text
insert_char pos c [] = if pos == 0 then some (c ∷ []) else none
insert_char pos c (x ∷ s) =
    let rest = keep x (insert_char (pos - len_utf8 x) c s) in
    if pos == 0 then some (c ∷ x ∷ s) else if leb (len_utf8 x) pos then rest else none

unfoldable pub remove_char : ℕ → Text → Option Text
remove_char pos [] = none
remove_char pos (x ∷ s) =
    let rest = keep x (remove_char (pos - len_utf8 x) s) in
    if pos == 0 then some s else if leb (len_utf8 x) pos then rest else none

pub len_utf8_bounds : (c : ℕ) → (1 ≤ len_utf8 c) × (len_utf8 c ≤ 4)
unfolding len_utf8
len_utf8_bounds c = ground arith

keep-some :
    (x : ℕ) (o : Option Text) (t : Text)
    → keep x o ≡ some t
    → (s : Text) × (o ≡ some s) × (x ∷ s ≡ t)
keep-some x none t e = cc e
keep-some x (some s) t e = (s, refl, cc e)

-- A character that is inserted makes the text longer by its bytes.
pub byte_len-insert_char :
    (pos c : ℕ) (s t : Text)
    → insert_char pos c s ≡ some t
    → (byte_len t ≡ byte_len s + len_utf8 c) × (pos ≤ byte_len s)
unfolding byte_len insert_char
byte_len-insert_char pos c [] t e = ground arith
byte_len-insert_char pos c (x ∷ s) t e = elim (Bool-cases (pos == 0)) [
  | inl start ↦ ground (arith, start)
  | inr later ↦ elim (Bool-cases (leb (len_utf8 x) pos)) [
    | inr inside ↦ ground (arith, later, inside)
    | inl after ↦
        let r =
          keep-some x (insert_char (pos - len_utf8 x) c s) t (sym (rw (later, after) refl) ∙ e) in
        let ih = byte_len-insert_char (pos - len_utf8 x) c s r.0 r.1 in
        rw (← r.2) (ground (arith, after, ih.0, ih.1))
  ]
]

-- A character that is removed starts at the position, and makes the text shorter by its bytes.
pub byte_len-remove_char :
    (pos : ℕ) (s t : Text)
    → remove_char pos s ≡ some t
    → (pos ≤ byte_len t) × (byte_len t < byte_len s)
unfolding byte_len remove_char
byte_len-remove_char pos [] t e = cc e
byte_len-remove_char pos (x ∷ s) t e = elim (Bool-cases (pos == 0)) [
  | inl start ↦ ground (arith, start, len_utf8_bounds x)
  | inr later ↦ elim (Bool-cases (leb (len_utf8 x) pos)) [
    | inr inside ↦ ground (arith, later, inside)
    | inl after ↦
        let r =
          keep-some x (remove_char (pos - len_utf8 x) s) t (sym (rw (later, after) refl) ∙ e) in
        let ih = byte_len-remove_char (pos - len_utf8 x) s r.0 r.1 in
        rw (← r.2) (ground (arith, after, ih.0, ih.1))
  ]
]

-- Characters of one byte.
abbrev pub IsAscii : Text → Type 0
IsAscii [] = Unit
IsAscii (c ∷ s) = (c < 0x80) × IsAscii s

len_utf8-ascii : (c : ℕ) → c < 0x80 → len_utf8 c ≡ 1
unfolding len_utf8
len_utf8-ascii c h = ground arith

insert_char-later :
    (pos c x : ℕ) (s : Text)
    → len_utf8 x ≤ pos + 1
    → insert_char (pos + 1) c (x ∷ s) ≡ keep x (insert_char (pos + 1 - len_utf8 x) c s)
unfolding insert_char
insert_char-later pos c x s le = ground arith

remove_char-later :
    (pos x : ℕ) (s : Text)
    → len_utf8 x ≤ pos + 1
    → remove_char (pos + 1) (x ∷ s) ≡ keep x (remove_char (pos + 1 - len_utf8 x) s)
unfolding remove_char
remove_char-later pos x s le = ground arith

insert_char-next :
    (pos c x : ℕ) (s t : Text)
    → len_utf8 x ≡ 1
    → insert_char pos c s ≡ some t
    → insert_char (suc pos) c (x ∷ s) ≡ some (x ∷ t)
insert_char-next pos c x s t one e =
    let n : pos + 1 - len_utf8 x ≡ pos = omega (arith, one) in
    ap (λ (p : ℕ). insert_char p c (x ∷ s)) (omega arith)
    ∙ insert_char-later pos c x s (omega (arith, one))
    ∙ ap (λ (p : ℕ). keep x (insert_char p c s)) n
    ∙ rw e refl

remove_char-next :
    (pos x : ℕ) (s t : Text)
    → len_utf8 x ≡ 1
    → remove_char pos s ≡ some t
    → remove_char (suc pos) (x ∷ s) ≡ some (x ∷ t)
remove_char-next pos x s t one e =
    let n : pos + 1 - len_utf8 x ≡ pos = omega (arith, one) in
    ap (λ (p : ℕ). remove_char p (x ∷ s)) (omega arith)
    ∙ remove_char-later pos x s (omega (arith, one))
    ∙ ap (λ (p : ℕ). keep x (remove_char p s)) n
    ∙ rw e refl

-- In a text of such characters every position up to its end takes one.
pub insert_char-IsAscii :
    (pos c : ℕ) (s : Text)
    → c < 0x80
    → IsAscii s
    → pos ≤ byte_len s
    → (t : Text) × (insert_char pos c s ≡ some t) × IsAscii t
unfolding insert_char byte_len
insert_char-IsAscii pos c [] hc hs le = (c ∷ [], ground arith, (hc, tt))
insert_char-IsAscii zero c (x ∷ s) hc hs le = (c ∷ x ∷ s, refl, (hc, hs))
insert_char-IsAscii (suc pos) c (x ∷ s) hc hs le =
    let one = len_utf8-ascii x hs.0 in
    let r = insert_char-IsAscii pos c s hc hs.1 (omega (arith, one)) in
    (x ∷ r.0, insert_char-next pos c x s r.0 one r.1, (hs.0, r.2))

pub remove_char-IsAscii :
    (pos : ℕ) (s : Text)
    → IsAscii s
    → pos < byte_len s
    → (t : Text) × (remove_char pos s ≡ some t) × IsAscii t
unfolding remove_char byte_len
remove_char-IsAscii pos [] hs lt = absurd (omega arith)
remove_char-IsAscii zero (x ∷ s) hs lt = (s, refl, hs.1)
remove_char-IsAscii (suc pos) (x ∷ s) hs lt =
    let one = len_utf8-ascii x hs.0 in
    let r = remove_char-IsAscii pos s hs.1 (omega (arith, one)) in
    (x ∷ r.0, remove_char-next pos x s r.0 one r.1, (hs.0, r.2))

-- One byte into a character of several bytes nothing can be inserted.
wide_first : (c d : ℕ) (s : Text) → 1 < len_utf8 c → insert_char 1 d (c ∷ s) ≡ none
unfolding insert_char
wide_first c d s wide = ground arith

inserted_first :
    (pos c d : ℕ) (s t : Text)
    → (pos == 0) ≡ true
    → 1 < len_utf8 c
    → some (c ∷ s) ≡ some t
    → insert_char (pos + 1) d t ≡ none
inserted_first pos c d s t start wide e =
    let n : pos + 1 ≡ 1 = ground (arith, start) in
    let u : t ≡ c ∷ s = cc e in rw (n, u) (wide_first c d s wide)

-- After a character of several bytes is inserted, no character can be inserted one byte further on.
pub insert_char-inside :
    (pos c d : ℕ) (s t : Text)
    → 1 < len_utf8 c
    → insert_char pos c s ≡ some t
    → insert_char (pos + 1) d t ≡ none
unfolding insert_char
insert_char-inside pos c d [] t wide e = elim (Bool-cases (pos == 0)) [
  | inl start ↦ inserted_first pos c d [] t start wide (sym (rw start refl) ∙ e)
  | inr later ↦ absurd (ground (arith, later))
]
insert_char-inside pos c d (x ∷ s) t wide e = elim (Bool-cases (pos == 0)) [
  | inl start ↦ inserted_first pos c d (x ∷ s) t start wide (sym (rw start refl) ∙ e)
  | inr later ↦ elim (Bool-cases (leb (len_utf8 x) pos)) [
    | inr inside ↦ absurd (ground (arith, later, inside))
    | inl after ↦
        let r =
          keep-some x (insert_char (pos - len_utf8 x) c s) t (sym (rw (later, after) refl) ∙ e) in
        let ih = insert_char-inside (pos - len_utf8 x) c d s r.0 wide r.1 in
        let n : pos - len_utf8 x + 1 ≡ pos + 1 - len_utf8 x = ground (arith, after) in
        rw (← r.2) (
          insert_char-later pos d x r.0 (ground (arith, after))
          ∙ ap (λ (p : ℕ). keep x (insert_char p d r.0)) (sym n)
          ∙ rw ih refl)
  ]
]
